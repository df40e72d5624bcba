-- ===== src/Http/Responses.antt =====
-- What every response has, and what the counter counts.
use asio_network.Base.{
  ℕ, ◌+◌, ◌≡◌, refl, Bool, false, Option, none, some, List, [], ◌∷◌, arith, if◌then◌else◌, length,
  All, Bool-cases, inl, inr,
}
use asio_network.Wire.Memory.{Bytes}
use asio_network.Wire.Exec.{Exec, done, undefined, throws}
use asio_network.Http.{
  fresh_response, Verb, Request, Response, Status, Rendering, Program, bytes_of, same_bytes,
  create_response, create_post_response, answer_email, by_method, accepted, file_not_found,
  write_response, process_request, process_all, request_count,
}

-- Whether a request is one that the counter counts.
abbrev pub counts : Request → Bool
counts q = elim q.method [ Verb.get ↦ same_bytes q.target (bytes_of "/count") | _ ↦ false ]

abbrev pub counted : List Request → ℕ
counted [] = 0
counted (q ∷ qs) = (if counts q then 1 else 0) + counted qs

-- What a response has, whatever the request: its version is the request's, the connection is not
-- kept, and its length is that of its body.
pub record IsComplete (q : Request) (r : Response) : Type 0 where
  pub same_version : r.version ≡ q.version
  pub not_kept : r.keep_alive ≡ false
  pub length_stated : r.content_length ≡ some (length r.body)

-- The status that the server means to answer with.
abbrev pub status_of : Request → Status
status_of q = elim q.method [
  | Verb.get ↦
      if same_bytes q.target (bytes_of "/count")
      then Status.ok
      else if same_bytes q.target (bytes_of "/time")
      then Status.ok
      else Status.not_found
  | Verb.post ↦ if same_bytes q.target (bytes_of "/email") then Status.ok else Status.not_found
  | Verb.other name ↦ Status.bad_request
]

-- The member "email" of a text that parses is a string.
abbrev pub HasNoThrow : Option (Exec Bytes) → Type 0
HasNoThrow none = Unit
HasNoThrow (some (done email)) = Unit
HasNoThrow _ = ⊥

module _ (render : Rendering) where
  -- What is shown of one request.
  abbrev Answers : Request → Program → Exec (Response × Program) → Type 0
  Answers q p t =
      (r : Response) × (p' : Program) × (t ≡ done (r, p'))
      × IsComplete q r
      × (r.result ≡ status_of q)
      × (p'.count ≡ (if counts q then 1 else 0) + p.count)

  get-Answers :
      (version : ℕ) (target body : Bytes) (p : Program)
      → let q : Request = record {
        version = version;
        method = Verb.get;
        target = target;
        body = body;
      } in
        Answers q p (process_request render q p)
  unfolding process_request by_method create_response accepted file_not_found write_response
      request_count
  get-Answers version target body p = elim (Bool-cases (same_bytes target (bytes_of "/count"))) [
    | inl count ↦ rw count (
      _,
      _,
      refl,
      record { same_version = refl; not_kept = refl; length_stated = refl },
      refl,
      omega arith,
    )
    | inr other ↦ elim (Bool-cases (same_bytes target (bytes_of "/time"))) [
      | inl time ↦
          rw (other, time)
            (
              _,
              _,
              refl,
              record { same_version = refl; not_kept = refl; length_stated = refl },
              refl,
              omega arith,
            )
      | inr neither ↦
          rw (other, neither)
            (
              _,
              _,
              refl,
              record { same_version = refl; not_kept = refl; length_stated = refl },
              refl,
              omega arith,
            )
    ]
  ]

  email_lem :
      (o : Option (Exec Bytes)) (text : Bytes) (r : Response)
      → HasNoThrow o
      → (body : Bytes) × (answer_email render o text r ≡ done (record r { body = body }))
  unfolding answer_email
  email_lem none text r v = (_, refl)
  email_lem (some (done email)) text r v = (_, refl)
  email_lem (some undefined) text r v = elim v [ ]
  email_lem (some throws) text r v = elim v [ ]

  post-Answers :
      (version : ℕ) (target body : Bytes) (p : Program)
      → HasNoThrow (render.email body)
      → let q : Request = record {
        version = version;
        method = Verb.post;
        target = target;
        body = body;
      } in
        Answers q p (process_request render q p)
  unfolding process_request by_method create_post_response answer_email accepted file_not_found
      write_response
  post-Answers version target body p v =
      let (body', e) =
        email_lem (render.email body) body
          (accepted render
            (record (fresh_response render) { version = version; keep_alive = false }))
          v in
      elim (Bool-cases (same_bytes target (bytes_of "/email"))) [
        | inl email ↦
            rw (email, e)
              (
                _,
                _,
                refl,
                record { same_version = refl; not_kept = refl; length_stated = refl },
                refl,
                omega arith,
              )
        | inr other ↦ rw other (
          _,
          _,
          refl,
          record { same_version = refl; not_kept = refl; length_stated = refl },
          refl,
          omega arith,
        )
      ]

  process_request_by :
      (method : Verb) (version : ℕ) (target body : Bytes) (p : Program)
      → HasNoThrow (render.email body)
      → let q : Request = record {
        version = version;
        method = method;
        target = target;
        body = body;
      } in
        Answers q p (process_request render q p)
  unfolding process_request by_method write_response
  process_request_by Verb.get version target body p v = get-Answers version target body p
  process_request_by Verb.post version target body p v = post-Answers version target body p v
  process_request_by (Verb.other name) version target body p v = (
    _,
    _,
    refl,
    record { same_version = refl; not_kept = refl; length_stated = refl },
    refl,
    omega arith,
  )

  -- Every request is answered, as long as the JSON library does not throw on its body, with a
  -- response that is complete and has the intended status; the counter grows by one exactly on a GET
  -- of /count.
  pub process_request_answers :
      (q : Request) (p : Program)
      → HasNoThrow (render.email q.body)
      → (r : Response) × (p' : Program) × (process_request render q p ≡ done (r, p'))
        × IsComplete q r
        × (r.result ≡ status_of q)
        × (p'.count ≡ (if counts q then 1 else 0) + p.count)
  process_request_answers q p v = process_request_by q.method q.version q.target q.body p v

  -- The counter after some requests, on one connection after the other, is what it was and the
  -- number of GETs of /count among them; each request has its response.
  process_all-counted :
      (qs : List Request) (p : Program)
      → All (λ (q : Request). HasNoThrow (render.email q.body)) qs
      → (rs : List Response) × (p' : Program) × (process_all render qs p ≡ done (rs, p'))
        × (length rs ≡ length qs)
        × (p'.count ≡ counted qs + p.count)
  unfolding process_all
  process_all-counted [] p v = ([], p, refl, refl, omega arith)
  process_all-counted (q ∷ qs) p v =
      let (r, p1, e, _, _, one) = process_request_answers q p v.0 in
      let (rs, p2, e', same, rest) = process_all-counted qs p1 v.1 in
      (r ∷ rs, p2, rw (e, e') refl, omega (arith, same), omega (arith, one, rest))
