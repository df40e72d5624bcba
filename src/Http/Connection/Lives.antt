-- ===== src/Http/Connection/Lives.antt =====
-- No connection outlives its deadline, and each answers at most once, to what it has read.
use asio_network.Base.{
  ℕ, ◌+◌, ◌≤◌, ◌≡◌, ◌⊎◌, inl, inr, refl, ap, Bool, true, false, ◌&&◌, Option, none, some, List, [],
  ◌∷◌, ◌++◌, arith, if◌then◌else◌,
}
use asio_network.Wire.Exec.{done}
use asio_network.Http.{Request, Response, Rendering, Program}
use asio_network.Http.Responses.{IsComplete, status_of, HasNoThrow, process_request_answers}
use asio_network.Http.Connection.{
  Connection, HttpEvent, has_read, read_fails, write_ends, expires, wait_fails, start_connection,
  after_write, after_wait, answer_request, on_http, run_http,
}

-- The library does not throw on the bodies that are read.
abbrev pub Readable : Rendering → List HttpEvent → Type 0
Readable render [] = Unit
Readable render (has_read q ∷ events) = HasNoThrow (render.email q.body) × Readable render events
Readable render (read_fails ∷ events) = Readable render events
Readable render (write_ends error ∷ events) = Readable render events
Readable render (expires ∷ events) = Readable render events
Readable render (wait_fails ∷ events) = Readable render events

abbrev pub one_if : Bool → ℕ
one_if b = if b then 1 else 0

-- What has been written, by the request that has been read: nothing, or its complete answer.
pub data Answered : Option Request → List Response → Type 0 where
  not_yet : {request : Option Request} → Answered request []
  answered :
      (q : Request) (r : Response)
      → IsComplete q r
      → r.result ≡ status_of q
      → Answered (some q) (r ∷ [])

-- While the connection reads or writes, its deadline is ahead or its socket is closed, so that the
-- operation will end; and with those that can still come, at most three operations end.
pub data Lives (c : Connection) : Type 0 where
  is_reading :
      c.reading ≡ true
      → c.writing ≡ none
      → c.written ≡ []
      → c.cancelled ≡ false
      → (c.waiting ≡ true) ⊎ (c.socket_open ≡ false)
      → 2 + (one_if c.waiting + c.ended) ≤ 3
      → Lives c
  is_writing :
      (r : Response)
      → c.reading ≡ false
      → c.writing ≡ some r
      → c.written ≡ r ∷ []
      → Answered c.request c.written
      → c.cancelled ≡ false
      → (c.waiting ≡ true) ⊎ (c.socket_open ≡ false)
      → 1 + (one_if c.waiting + c.ended) ≤ 3
      → Lives c
  is_over :
      c.reading ≡ false
      → c.writing ≡ none
      → Answered c.request c.written
      → one_if c.waiting + c.ended ≤ 3
      → Lives c

module _ (shut_down : Bool) (ended : ℕ) (request : Option Request) where
  -- The state in parts, so that no record has to be rewritten.
  abbrev parts : Bool → Option Response → Bool → Bool → Bool → List Response → Connection
  parts reading writing waiting cancelled socket_open written = record {
    reading = reading;
    request = request;
    writing = writing;
    waiting = waiting;
    cancelled = cancelled;
    socket_open = socket_open;
    shut_down = shut_down;
    written = written;
    ended = ended;
  }

  -- The wait ends, in any state.
  wait_ends :
      (error reading : Bool) (writing : Option Response) (waiting cancelled socket_open : Bool)
      (written : List Response)
      → (error ≡ false) ⊎ (cancelled ≡ true)
      → waiting ≡ true
      → Lives (parts reading writing waiting cancelled socket_open written)
      → Lives (after_wait error (parts reading writing waiting cancelled socket_open written))
  unfolding after_wait
  wait_ends false rd wr w k o ws allowed waits (is_reading er ew en ek deadline most) =
      is_reading er ew en ek (inr refl) (omega (arith, ap one_if waits, most))
  wait_ends false rd wr w k o ws allowed waits (is_writing r er ew en a ek deadline most) =
      is_writing r er ew en a ek (inr refl) (omega (arith, ap one_if waits, most))
  wait_ends error rd wr w k o ws allowed waits (is_over er ew a most) =
      is_over er ew a (omega (arith, ap one_if waits, most))
  wait_ends true rd wr w k o ws (inl e) waits v = cc (e)
  wait_ends true rd wr w k o ws (inr e) waits (is_reading er ew en ek deadline most) = cc (e, ek)
  wait_ends true rd wr w k o ws (inr e) waits (is_writing r er ew en a ek deadline most) =
      cc (e, ek)

  write_lem :
      (reading : Bool) (writing : Option Response) (waiting cancelled socket_open : Bool)
      (written : List Response)
      → Lives (parts reading writing waiting cancelled socket_open written)
      → Lives (after_write writing (parts reading writing waiting cancelled socket_open written))
  unfolding after_write
  write_lem rd none w k o ws v = v
  write_lem rd (some r) w k o ws (is_reading er ew en ek deadline most) = cc (ew)
  write_lem rd (some r) w k o ws (is_writing r' er ew en a ek deadline most) =
      is_over er refl a (omega (arith, most))
  write_lem rd (some r) w k o ws (is_over er ew a most) = cc (ew)

  fail_lem :
      (reading : Bool) (writing : Option Response) (waiting cancelled socket_open : Bool)
      (written : List Response)
      → Lives (parts reading writing waiting cancelled socket_open written)
      → Lives (
          let c : Connection = parts reading writing waiting cancelled socket_open written in
          if reading then record c { reading = false; ended = c.ended + 1 } else c)
  fail_lem false wr w k o ws v = v
  fail_lem true wr w k o ws (is_reading er ew en ek deadline most) =
      is_over refl ew (rw en not_yet) (omega (arith, most))
  fail_lem true wr w k o ws (is_writing r er ew en a ek deadline most) = cc (er)
  fail_lem true wr w k o ws (is_over er ew a most) = cc (er)

  expire_lem :
      (reading : Bool) (writing : Option Response) (waiting cancelled socket_open : Bool)
      (written : List Response)
      → Lives (parts reading writing waiting cancelled socket_open written)
      → Lives (
          let c : Connection = parts reading writing waiting cancelled socket_open written in
          if waiting then after_wait false c else c)
  expire_lem rd wr false k o ws v = v
  expire_lem rd wr true k o ws v = wait_ends false rd wr true k o ws (inl refl) refl v

  cancel_lem :
      (reading : Bool) (writing : Option Response) (waiting cancelled socket_open : Bool)
      (written : List Response)
      → Lives (parts reading writing waiting cancelled socket_open written)
      → Lives (
          let c : Connection = parts reading writing waiting cancelled socket_open written in
          if waiting && cancelled then after_wait true c else c)
  cancel_lem rd wr false k o ws v = v
  cancel_lem rd wr true false o ws v = v
  cancel_lem rd wr true true o ws v = wait_ends true rd wr true true o ws (inr refl) refl v

  module _ (render : Rendering) where
    read_lem :
        (q : Request) (p : Program) (reading : Bool) (writing : Option Response)
        (waiting cancelled socket_open : Bool) (written : List Response)
        → HasNoThrow (render.email q.body)
        → Lives (parts reading writing waiting cancelled socket_open written)
        → let c : Connection = parts reading writing waiting cancelled socket_open written in
          (c' : Connection) × (p' : Program) × ((if reading
              then answer_request render q (record c { request = some q }) p
              else done (c, p))
            ≡ done (c', p'))
          × Lives c'
    unfolding answer_request
    read_lem q p false wr w k o ws good v = (_, p, refl, v)
    read_lem q p true wr w k o ws good (is_reading er ew en ek deadline most) =
        let (r, p', e, complete, status, _) = process_request_answers render q p good in
        (
          record (parts true wr w k o ws) {
            reading = false;
            request = some q;
            writing = some r;
            written = ws ++ (r ∷ []);
            ended = ended + 1;
          },
          p',
          rw e refl,
          is_writing r refl refl (rw en refl) (rw en (answered q r complete status)) ek deadline
              (omega (arith, most)),
        )
    read_lem q p true wr w k o ws good (is_writing r er ew en a ek deadline most) = cc (er)
    read_lem q p true wr w k o ws good (is_over er ew a most) = cc (er)

module _ (render : Rendering) where
  on_http-Lives :
      (e : HttpEvent) (c : Connection) (p : Program)
      → Readable render (e ∷ [])
      → Lives c
      → (c' : Connection) × (p' : Program) × (on_http render e c p ≡ done (c', p')) × Lives c'
  unfolding on_http
  on_http-Lives (has_read q) c p good v =
      read_lem c.shut_down c.ended c.request render q p c.reading c.writing c.waiting c.cancelled
        c.socket_open c.written good.0 v
  on_http-Lives read_fails c p good v = (
    _,
    p,
    refl,
    fail_lem c.shut_down c.ended c.request c.reading c.writing c.waiting c.cancelled c.socket_open
        c.written v,
  )
  on_http-Lives (write_ends error) c p good v = (
    _,
    p,
    refl,
    write_lem c.shut_down c.ended c.request c.reading c.writing c.waiting c.cancelled c.socket_open
        c.written v,
  )
  on_http-Lives expires c p good v = (
    _,
    p,
    refl,
    expire_lem c.shut_down c.ended c.request c.reading c.writing c.waiting c.cancelled c.socket_open
        c.written v,
  )
  on_http-Lives wait_fails c p good v = (
    _,
    p,
    refl,
    cancel_lem c.shut_down c.ended c.request c.reading c.writing c.waiting c.cancelled c.socket_open
        c.written v,
  )

  Readable-first :
      (e : HttpEvent) (events : List HttpEvent)
      → Readable render (e ∷ events)
      → Readable render (e ∷ []) × Readable render events
  Readable-first (has_read q) events good = ((good.0, tt), good.1)
  Readable-first read_fails events good = (tt, good)
  Readable-first (write_ends error) events good = (tt, good)
  Readable-first expires events good = (tt, good)
  Readable-first wait_fails events good = (tt, good)

  run_http_lem :
      (events : List HttpEvent) (c : Connection) (p : Program)
      → Readable render events
      → Lives c
      → (c' : Connection) × (p' : Program) × (run_http render events c p ≡ done (c', p')) × Lives c'
  unfolding run_http
  run_http_lem [] c p good v = (c, p, refl, v)
  run_http_lem (e ∷ events) c p good v =
      let (first, others) = Readable-first e events good in
      let (c1, p1, e1, v1) = on_http-Lives e c p first v in
      let (c2, p2, e2, v2) = run_http_lem events c1 p1 others v1 in (c2, p2, rw e1 e2, v2)

  -- From start() on, as long as the JSON library does not throw on what is read, a connection writes at
  -- most one response, the complete answer to the request it has read; while it reads or writes, its
  -- deadline is ahead or its socket is closed; and at most three of its operations ever end.
  pub start_connection-Lives :
      (events : List HttpEvent) (p : Program)
      → Readable render events
      → (c : Connection) × (p' : Program) × (run_http render events start_connection p
          ≡ done (c, p'))
        × Lives c
  unfolding start_connection
  start_connection-Lives events p good =
      run_http_lem events start_connection p good
        (is_reading refl refl refl refl (inl refl) (omega arith))
