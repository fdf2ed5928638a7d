-- ===== src/Server/Serving.antt =====
-- server.cpp: the connections that the loop of the main reactor deals.
use reactor_web_server.Common.{
  subst, ◌≡◌, refl, ap, sym, ◌∙◌, arith, Bool, true, false, ◌&&◌, Option, some, List, [], ◌∷◌, ◌++◌,
  append_assoc, ℤ, pos, eq_ℤ, if◌then◌else◌, Bool-cases, inl, inr,
}
use reactor_web_server.Server.{
  Server, Accept, accepted, eagain, eintr, other_error, deal_accepted, deal_new_conn,
}
use reactor_web_server.Server.Dealing.{ends, Dealt, deal_new_conn-Dealt}
use reactor_web_server.Server.Running.{
  MainReactor, MainEvent, MainWait, MainTurn, left, accepted_on, handle_events, main_loop,
}

-- The answers of one call of deal_new_conn up to the last, which ends the call.
abbrev pub until_end : List Accept → List Accept
until_end [] = []
until_end (accepted cfd addr ∷ os) = accepted cfd addr ∷ until_end os
until_end (eintr ∷ os) = until_end os
until_end (eagain ∷ os) = []
until_end (other_error ∷ os) = []

-- One call after another is a call with the answers of both.
deal_body :
    (os ps : List Accept) (s : Server)
    → ends os ≡ true
    → (t : Server) × (deal_new_conn os s ≡ some t)
      × (deal_new_conn (until_end os ++ ps) s ≡ deal_new_conn ps t)
unfolding deal_new_conn
deal_body [] ps s e = cc
deal_body (accepted cfd addr ∷ os) ps s e = deal_body os ps (deal_accepted cfd addr s) e
deal_body (eintr ∷ os) ps s e = deal_body os ps s e
deal_body (eagain ∷ os) ps s e = (s, refl, refl)
deal_body (other_error ∷ os) ps s e = (s, refl, refl)

module _ (listenfd : ℤ) where
  abbrev pub event_accepts : MainEvent → List Accept
  event_accepts e = if eq_ℤ listenfd (pos e.fd) then until_end e.accepts else []

  abbrev pub batch_accepts : List MainEvent → List Accept
  batch_accepts [] = []
  batch_accepts (e ∷ es) = event_accepts e ++ batch_accepts es

  -- All that accept answers until the loop is left.
  abbrev pub run_accepts : List MainTurn → List Accept
  run_accepts [] = eagain ∷ []
  run_accepts (t ∷ ts) =
      let rest = run_accepts ts in
      if t.stop then eagain ∷ [] else elim t.wait [
        | MainWait.ready es ↦ batch_accepts es ++ rest
        | MainWait.eintr ↦ rest
        | MainWait.failed ↦ eagain ∷ []
      ]

  -- Each call of deal_new_conn ends.
  abbrev pub batch_ends : List MainEvent → Bool
  batch_ends [] = true
  batch_ends (e ∷ es) = (if eq_ℤ listenfd (pos e.fd) then ends e.accepts else true) && batch_ends es

  -- The run comes to a set m_stop, or a failing epoll_wait, and each call before ends.
  abbrev pub run_ends : List MainTurn → Bool
  run_ends [] = false
  run_ends (t ∷ ts) =
      let rest = run_ends ts in
      if t.stop then true else elim t.wait [
        | MainWait.ready es ↦ batch_ends es && rest
        | MainWait.eintr ↦ rest
        | MainWait.failed ↦ true
      ]

-- One batch.
handle_events_deals :
    (es : List MainEvent) (m : MainReactor) (ps : List Accept)
    → batch_ends m.listenfd es ≡ true
    → (s : Server) × (handle_events es m ≡ some (record m { server = s }))
      × (deal_new_conn (batch_accepts m.listenfd es ++ ps) m.server ≡ deal_new_conn ps s)
unfolding handle_events accepted_on
handle_events_deals [] m ps e = (m.server, refl, refl)
handle_events_deals (x ∷ es) m ps e = elim (Bool-cases (eq_ℤ m.listenfd (pos x.fd))) [
  | inl a ↦
      let (t, p, q) =
        deal_body x.accepts (batch_accepts m.listenfd es ++ ps) m.server (ground (arith, e, a)) in
      let (u, v, w) = handle_events_deals es (record m { server = t }) ps (ground (arith, e, a)) in
      (
        u,
        rw (a, p, handle_events) v,
        rw a (
            ap (λ l. deal_new_conn l m.server)
              (append_assoc (until_end x.accepts) (batch_accepts m.listenfd es) ps)
            ∙ q
            ∙ w),
      )
  | inr a ↦
      let (u, v, w) = handle_events_deals es m ps (ground (arith, e, a)) in
      (u, rw (a, handle_events) v, rw a w)
]

deal_ends : (s : Server) → deal_new_conn (eagain ∷ []) s ≡ some s
unfolding deal_new_conn
deal_ends s = refl

-- The loop over the turns.
pub main_loop_deals :
    (ts : List MainTurn) (m : MainReactor)
    → run_ends m.listenfd ts ≡ true
    → (s : Server) × (main_loop ts m ≡ left (record m { server = s }))
      × (deal_new_conn (run_accepts m.listenfd ts) m.server ≡ some s)
unfolding main_loop
main_loop_deals [] m e = cc
main_loop_deals (t ∷ ts) m e = turned t.stop t.wait m (main_loop_deals ts) e
  where
    turned :
        (stop : Bool) (w : MainWait) (m : MainReactor)
        → ((n : MainReactor)
            → run_ends n.listenfd ts ≡ true
            → (s : Server) × (main_loop ts n ≡ left (record n { server = s }))
              × (deal_new_conn (run_accepts n.listenfd ts) n.server ≡ some s))
        → run_ends m.listenfd (record { stop = stop; wait = w } ∷ ts) ≡ true
        → (s : Server) × (main_loop (record { stop = stop; wait = w } ∷ ts) m
            ≡ left (record m { server = s }))
          × (deal_new_conn (run_accepts m.listenfd (record { stop = stop; wait = w } ∷ ts)) m.server
              ≡ some s)
    turned true w m k e = (m.server, refl, deal_ends m.server)
    turned false MainWait.eintr m k e = k m e
    turned false MainWait.failed m k e = (m.server, refl, deal_ends m.server)
    turned false (MainWait.ready es) m k e =
        let (u, p, q) = handle_events_deals es m (run_accepts m.listenfd ts) (ground (arith, e)) in
        let (s, v, w) = k (record m { server = u }) (ground (arith, e)) in (s, rw p v, q ∙ w)

result_ends : (os : List Accept) (s t : Server) → deal_new_conn os s ≡ some t → ends os ≡ true
unfolding deal_new_conn
result_ends [] s t e = cc
result_ends (accepted cfd addr ∷ os) s t e = result_ends os (deal_accepted cfd addr s) t e
result_ends (eintr ∷ os) s t e = result_ends os s t e
result_ends (eagain ∷ os) s t e = refl
result_ends (other_error ∷ os) s t e = refl

pub deal_Dealt : (os : List Accept) (s t : Server) → deal_new_conn os s ≡ some t → Dealt s os t
deal_Dealt os s t e =
    let (u, p, d) = deal_new_conn-Dealt os s (result_ends os s t e) in
    subst (Dealt s os) (same (sym p ∙ e)) d
  where
    same : {u : Server} → ◌≡◌ {A = Option Server} (some u) (some t) → u ≡ t
    same e = ground arith
