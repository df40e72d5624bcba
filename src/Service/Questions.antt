-- ===== src/Service/Questions.antt =====
-- The lists of questions, their requests and their replies, and the nodes that are posted for them.
use asio_network.Base.{ℕ, ◌≡◌, refl, ap, List, [], ◌∷◌, ◌++◌, All}
use asio_network.Logic.{LogicNode}
use asio_network.Session.Receive.{Message, logic_node, logic_nodes}
use asio_network.Session.Hello.{JsonText}
use asio_network.Fleet.Answers.{Question, request, requests, reply, replies, IsQuestion}

pub requests-snoc :
    (qs : List Question) (q : Question)
    → requests (qs ++ (q ∷ [])) ≡ requests qs ++ (request q ∷ [])
requests-snoc [] q = refl
requests-snoc (p ∷ qs) q = ap (◌∷◌ (request p)) (requests-snoc qs q)

pub requests-append : (ps qs : List Question) → requests (ps ++ qs) ≡ requests ps ++ requests qs
requests-append [] qs = refl
requests-append (p ∷ ps) qs = ap (◌∷◌ (request p)) (requests-append ps qs)

pub replies-snoc :
    (json : JsonText) (qs : List Question) (q : Question)
    → replies json (qs ++ (q ∷ [])) ≡ replies json qs ++ (reply json q ∷ [])
replies-snoc json [] q = refl
replies-snoc json (p ∷ qs) q = ap (◌∷◌ (reply json p)) (replies-snoc json qs q)

pub logic_nodes-append :
    (k : ℕ) (ms ns : List Message) → logic_nodes k (ms ++ ns) ≡ logic_nodes k ms ++ logic_nodes k ns
logic_nodes-append k [] ns = refl
logic_nodes-append k (m ∷ ms) ns = ap (◌∷◌ (logic_node k m)) (logic_nodes-append k ms ns)

pub asked_rest :
    (json : JsonText) (ps qs : List Question)
    → All (IsQuestion json) (ps ++ qs)
    → All (IsQuestion json) qs
asked_rest json [] qs h = h
asked_rest json (p ∷ ps) qs h = asked_rest json ps qs h.1

tail_of : List LogicNode → List LogicNode
tail_of [] = []
tail_of (x ∷ xs) = xs

pub append-cancel : (xs ys zs : List LogicNode) → xs ++ ys ≡ xs ++ zs → ys ≡ zs
unfolding tail_of
append-cancel [] ys zs e = e
append-cancel (x ∷ xs) ys zs e = append-cancel xs ys zs (ap tail_of e)
