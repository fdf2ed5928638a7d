-- ===== src/Http/Pipeline.antt =====
-- Several requests on one connection of http_conn.cpp, as deal_read, the worker and deal_write of
-- sub_reactor.cpp take them: parse, prepare the response, write it, reset.
pub mod Between
pub mod Steps
use reactor_web_server.Common.{
  ℕ, zero, suc, ◌+◌, ◌-◌, ◌≤◌, ◌≡◌, ◌≢◌, refl, ap, ap₂, sym, ◌∙◌, subst, length, length-append,
  length-take, take, drop, take-append, drop-append, take-append-drop, List, [], ◌∷◌, ◌++◌,
  append_assoc, All, arith, Option, some, min,
}
use reactor_web_server.Common.Text.{Bytes}
use reactor_web_server.Http.{HttpConn, HttpCode, no_request, Closed}
use reactor_web_server.Http.Resource.{Files, do_request}
use reactor_web_server.Http.Resource.Changes.{do_request_changes, do_request_answers}
use reactor_web_server.Http.Parser.{process_read, record_code, prepare_io_read}
use reactor_web_server.Http.Parser.Invariant.{IsValid}
use reactor_web_server.Http.Parser.Loop.{some_eq}
use reactor_web_server.Http.Requests.{
  Request, IsRequest, IsReady, Parsed, request_text, process_read-request_text,
}
use reactor_web_server.Http.Requests.Lines.{Unread}
use reactor_web_server.Http.Reset.{reset_for_next}
use reactor_web_server.Http.Reset.Leftover.{unread_bytes, reset_for_next-Restarted}
use reactor_web_server.Http.Steady.{IsSteady, prepare_io_read-IsSteady}
use reactor_web_server.Http.Pipeline.Between.{
  KeepsReading, Answering, Answering-KeepsReading, Answering-IsSteady,
}
use reactor_web_server.Http.Pipeline.Steps.{
  Holds, requested, Understood, first-Understood, next-Holds, same_answer,
}

abbrev pub requests_text : List Request → Bytes
requests_text [] = []
requests_text (q ∷ qs) = request_text q ++ requests_text qs

-- A number of requests, one after the other: each is parsed, answered, and followed by a reset.
pub data Served (fs : Files) (root : Bytes) : HttpConn → ℕ → HttpConn → Type 0 where
  idle : {c : HttpConn} → Served fs root c 0 c
  request :
      {c d e f : HttpConn} {n : ℕ}
      → prepare_io_read fs root c ≡ some (1, d)
      → Answering fs root d e
      → (log : Closed) → Served fs root (reset_for_next e log).1 n f
      → Served fs root c (suc n) f

module _ (fs : Files) (root : Bytes) where
  -- On a connection that has read several GET requests (each without a body; URLs without blanks;
  -- lines without NUL, CR and LF) one behind the other: when as many of them as stand before a
  -- request have been parsed, prepared by the worker, written by any number of calls of write, and
  -- followed by a reset, the next call of prepare_io_read returns 1 with that request's URL,
  -- version, host and choice of keep-alive, and all the bytes behind it left.
  pub requests_in_order :
      (before : List Request) (q : Request) (after : List Request) (c d : HttpConn)
      → All IsRequest before
      → IsRequest q
      → Holds c (requests_text (before ++ q ∷ after))
      → Served fs root c (length before) d
      → (tail : Bytes) × Understood fs root q (requests_text after ++ tail) d
  requests_in_order [] q after c d k l h idle =
      (h.tail, first-Understood fs root q (requests_text after) c l h)
  requests_in_order (b ∷ bs) q after c d k l h (request {d = e} {e = x} p a log s) =
      let more = requests_text (bs ++ q ∷ after) in
      let (f, parsed, g) = first-Understood fs root b more c k.0 h in
      requests_in_order bs q after _ d k.1 l
        (next-Holds fs root b more c f x log h parsed g (
          subst (λ r. Answering fs root r x) (same_answer fs root c e (requested fs root f) p g) a))
        s
