-- ===== src/Server.antt =====
-- server.h and server.cpp: the main reactor's accept loop and its round-robin over the
-- sub-reactors. The kernel's answers to accept are a script.
pub mod Dealing
pub mod Running
pub mod Serving
pub mod Starting
pub mod HandOver
use reactor_web_server.Common.{
  ℕ, ◌+◌, ◌%◌, ◌^◌, ◌==◌, Bool, true, false, Option, none, some, List, [], ◌∷◌, ◌++◌, ℤ, pos,
  negsuc, leb, if◌then◌else◌, update,
}
use reactor_web_server.Http.{Address, Closed}
use reactor_web_server.SubReactor.{SubReactor, sub_reactor, max_fd, dispatch_new_conn}

pub record Server : Type 0 where
  pub num_subs : ℕ
  pub subs : ℕ → SubReactor
  pub rr_index : ℕ
  pub closed : Closed

abbrev pub u32_mod : ℕ
u32_mod = 2 ^ 32

-- m_num_subs, from the argument and hardware_concurrency.
unfoldable pub sub_count : ℤ → ℕ → ℕ
sub_count num_subs hardware = elim num_subs [
  | pos n ↦ if n == 0 then automatic else n
  | negsuc _ ↦ automatic
]
  where
    automatic : ℕ
    automatic = if hardware == 0 then 4 else hardware

-- Each sub-reactor with its descriptors: what eventfd and timerfd_create gave it.
unfoldable pub server : ℤ → ℕ → (ℕ → ℤ × ℤ) → Server
unfolding sub_count
server num_subs hardware fds = record {
  num_subs = sub_count num_subs hardware;
  subs = λ i. sub_reactor (fds i).0 (fds i).1;
  rr_index = 0;
  closed = [];
}

-- An answer of accept, by errno where it failed.
pub data Accept : Type 0 where
  accepted : ℕ → Address → Accept
  eagain eintr other_error : Accept

-- The index, which `m_rr_index++` moves on.
unfoldable pub next_sub : Server → ℕ
next_sub s = s.rr_index % s.num_subs

unfoldable pub deal_accepted : ℕ → Address → Server → Server
unfolding next_sub
deal_accepted cfd addr s =
    if leb max_fd cfd then record s { closed = s.closed ++ pos cfd ∷ [] } else record s {
      rr_index = (s.rr_index + 1) % u32_mod;
      subs = update s.subs (next_sub s) (dispatch_new_conn (s.subs (next_sub s)) (pos cfd) addr);
    }

-- `none` means that accept has no answer yet.
unfoldable pub deal_new_conn : List Accept → Server → Option Server
unfolding deal_accepted
deal_new_conn [] s = none
deal_new_conn (accepted cfd addr ∷ os) s = deal_new_conn os (deal_accepted cfd addr s)
deal_new_conn (eintr ∷ os) s = deal_new_conn os s
deal_new_conn (eagain ∷ os) s = some s
deal_new_conn (other_error ∷ os) s = some s
