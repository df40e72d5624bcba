-- ===== src/Http.antt =====
-- BeastHttpServer/BeastHttpServer.cpp: what a request is answered with. Texts are byte lists; the
-- numbers and the JSON in them are rendered by the libraries, which are parameters.
pub mod Responses
pub mod Connection
use Prim.Native.Char.{code}
use Prim.Native.String.{String}
use asio_network.Base.{
  ℕ, ◌+◌, Bool, true, false, Option, none, some, List, [], ◌∷◌, ◌++◌, ◌==◌, if◌then◌else◌, length,
}
use asio_network.Wire.Memory.{Bytes}
use asio_network.Wire.Exec.{Exec, done, undefined, throws, ◌>>=◌}

abbrev pub bytes_of : String → Bytes
bytes_of String.[] = []
bytes_of (String.◌∷◌ c s) = code c ∷ bytes_of s

abbrev pub same_bytes : Bytes → Bytes → Bool
same_bytes [] [] = true
same_bytes [] (b ∷ bs) = false
same_bytes (a ∷ as_) [] = false
same_bytes (a ∷ as_) (b ∷ bs) = if a == b then same_bytes as_ bs else false

-- The verbs that the program tells apart.
pub data Verb : Type 0 where
  get post : Verb
  other : Bytes → Verb

pub record Request : Type 0 where
  pub version : ℕ
  pub method : Verb
  pub target : Bytes
  pub body : Bytes

pub data Status : Type 0 where
  ok bad_request not_found : Status

pub record Response : Type 0 where
  pub version : ℕ
  pub keep_alive : Bool
  pub result : Status
  pub server : Option Bytes
  pub content_type : Option Bytes
  pub body : Bytes
  pub content_length : Option ℕ

-- How the libraries write. `email` is `asString()` of the member "email" of a text that
-- `Json::Reader` parses, which may throw: `none` is a text that does not parse. `failure` and
-- `success` are the `toStyledString()` of the objects that are answered, `success` by the text
-- whose member it repeats.
pub record Rendering : Type 0 where
  pub number : ℕ → Bytes
  pub email : Bytes → Option (Exec Bytes)
  pub failure : Bytes
  pub success : Bytes → Bytes

-- The static counter of `request_count`, and the clock.
pub record Program : Type 0 where
  pub count : ℕ
  pub now : ℕ

-- `request_count()`: the new value of the counter.
unfoldable pub request_count : Program → ℕ × Program
request_count p = (p.count + 1, record p { count = p.count + 1 })

unfoldable pub file_not_found : Response → Response
file_not_found r = record r {
  result = not_found;
  content_type = some (bytes_of "text/plain");
  body = r.body ++ bytes_of "File not found\r\n";
}

module _ (render : Rendering) where
  -- Lines 95-125.
  unfoldable pub create_response : Request → Response → Program → Response × Program
  unfolding request_count file_not_found
  create_response q r p =
      if same_bytes q.target (bytes_of "/count")
      then (
        record r {
          content_type = some (bytes_of "text/html");
          body =
              r.body
              ++ (bytes_of
                    "<html>\n<head><title>Request count</title></head>\n<body>\n<h1>Request count</h1>\n<p>There have been "
                  ++ (render.number (request_count p).0
                      ++ bytes_of " requests so far.</p>\n</body>\n</html>\n"));
        },
        (request_count p).1,
      )
      else if same_bytes q.target (bytes_of "/time")
      then (
        record r {
          content_type = some (bytes_of "text/html");
          body =
              r.body
              ++ (bytes_of
                    "<html>\n<head><title>Current time</title></head>\n<body>\n<h1>Current time</h1>\n<p>The current time is "
                  ++ (render.number p.now
                      ++ bytes_of " seconds since the epoch.</p>\n</body>\n</html>\n"));
        },
        p,
      )
      else (file_not_found r, p)

  -- Lines 133-151, by what the parser makes of the body.
  unfoldable pub answer_email : Option (Exec Bytes) → Bytes → Response → Exec Response
  answer_email none text r = done (record r { body = r.body ++ render.failure })
  answer_email (some parsed) text r = do
    email ← parsed
    done (record r { body = r.body ++ render.success text })

  -- Lines 127-157.
  unfoldable pub create_post_response : Request → Response → Exec Response
  unfolding answer_email file_not_found
  create_post_response q r =
      if same_bytes q.target (bytes_of "/email")
      then answer_email (render.email q.body) q.body r
      else done (file_not_found r)

  -- `_response.result(ok); _response.set(server, "Beast");`
  unfoldable pub accepted : Response → Response
  accepted r = record r { result = ok; server = some (bytes_of "Beast") }

  unfoldable pub by_method : Verb → Request → Response → Program → Exec (Response × Program)
  unfolding create_response create_post_response accepted
  by_method get q r p = done (create_response q (accepted r) p)
  by_method post q r p = do r' ← create_post_response q (accepted r); done (r', p)
  by_method (other name) q r p = done (
    record r {
      result = bad_request;
      content_type = some (bytes_of "text/plain");
      body = r.body ++ (bytes_of "Invalid request-method: " ++ (name ++ bytes_of "."));
    },
    p,
  )

  -- The first statement of write_response, lines 159-161.
  unfoldable pub write_response : Response → Response
  write_response r = record r { content_length = some (length r.body) }

  -- A response as Beast makes it.
  abbrev pub fresh_response : Response
  fresh_response = record {
    version = 11;
    keep_alive = true;
    result = ok;
    server = none;
    content_type = none;
    body = [];
    content_length = none;
  }

  -- Lines 68-93.
  unfoldable pub process_request : Request → Program → Exec (Response × Program)
  unfolding by_method write_response
  process_request q p = do
    rp ← by_method q.method q (record fresh_response { version = q.version; keep_alive = false }) p
    done (write_response rp.0, rp.1)

  -- One connection after the other is accepted and answers its request.
  unfoldable pub process_all : List Request → Program → Exec (List Response × Program)
  unfolding process_request
  process_all [] p = done ([], p)
  process_all (q ∷ qs) p = do
    rp ← process_request q p
    rest ← process_all qs rp.1
    done (rp.0 ∷ rest.0, rest.1)
