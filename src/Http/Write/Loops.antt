-- ===== src/Http/Write/Loops.antt =====
-- The loops of write in http_conn.cpp: both paths send the response, and both end.
use reactor_web_server.Common.{
  ℕ, zero, suc, ◌+◌, ◌-◌, ◌≤◌, ◌<◌, ◌≡◌, refl, sym, subst, ◌∙◌, true, false, length, length-append,
  length-drop, drop, take_all, drop-append_add, Bool-cases, inl, inr, arith, List, [], ◌∷◌, ◌++◌,
  append-nil, some, ltb, leb,
}
use reactor_web_server.Common.Text.{Bytes}
use reactor_web_server.Http.{HttpConn}
use reactor_web_server.Http.Write.{
  Errno, Outcome, iovec, total, writev_loop, file_rest, sendfile_loop, send_loop,
}
use reactor_web_server.Http.Write.Delivery.{sent_so_far, Ends, Offered, call-Ends}

drop-append_le : (n : ℕ) (xs ys : Bytes) → n ≤ length xs → drop n (xs ++ ys) ≡ drop n xs ++ ys
drop-append_le zero xs ys h = refl
drop-append_le (suc n) [] ys h = absurd (omega arith)
drop-append_le (suc n) (x ∷ xs) ys h = drop-append_le n xs ys (omega arith)

drop-append_ge :
    (n : ℕ) (xs ys : Bytes) → length xs ≤ n → drop n (xs ++ ys) ≡ drop (n - length xs) ys
drop-append_ge n xs ys h =
    subst (λ (k : ℕ). drop k (xs ++ ys) ≡ drop (n - length xs) ys) (omega arith)
      (drop-append_add xs ys (n - length xs))

pub head_Offered :
    (head body : Bytes) (k : ℕ) → k < length head → Offered (head ++ body) k (drop k head)
head_Offered head body k h = record {
  later = body;
  next_bytes = drop-append_le k head body (omega arith);
  some_bytes = omega (arith, length-drop k head);
}

body_Offered :
    (head body : Bytes) (k : ℕ)
    → length head ≤ k
    → k < length head + length body
    → Offered (head ++ body) k (drop (k - length head) body)
body_Offered head body k h l = record {
  later = [];
  next_bytes = drop-append_ge k head body h ∙ sym (append-nil _);
  some_bytes = omega (arith, length-drop (k - length head) body);
}

module _ (c : HttpConn) where
  abbrev pub inline_response : Bytes
  inline_response = c.response_head ++ c.response_body

  at_total :
      (k : ℕ) → k ≤ length inline_response → ltb k (total c) ≡ false → k ≡ length inline_response
  at_total k h e = ground (arith, length-append c.response_head c.response_body)

  pub iovec-Offered :
      (k : ℕ)
      → ltb k (total c) ≡ true
      → Offered inline_response k (iovec (record c { write_offset = k }))
  unfolding iovec
  iovec-Offered k h = elim (Bool-cases (ltb k (length c.response_head))) [
    | inl e ↦ rw e (head_Offered c.response_head c.response_body k (ground arith))
    | inr e ↦ rw e (body_Offered c.response_head c.response_body k (ground arith) (ground arith))
  ]

  all_sent :
      (p : Bytes) (k : ℕ) (e : Errno) → k ≡ length p → Ends c p k (some (1, sent_so_far c p k e))
  all_sent p k e h = (k, e, refl, omega arith, omega arith, λ _. h)

  -- writev: the head, then the body.
  pub writev_loop-Ends :
      (os : List Outcome) (k : ℕ) (e : Errno)
      → k ≤ length inline_response
      → Ends c inline_response k (writev_loop os (sent_so_far c inline_response k e))
  unfolding writev_loop
  writev_loop-Ends [] k e h = elim (Bool-cases (ltb k (total c))) [
    | inl more ↦ rw more tt
    | inr over ↦ rw over (all_sent inline_response k e (at_total k h over))
  ]
  writev_loop-Ends (o ∷ os) k e h = elim (Bool-cases (ltb k (total c))) [
    | inl more ↦ rw more (
        call-Ends c inline_response (writev_loop os) (iovec (record c { write_offset = k })) o k e h
          (iovec-Offered k more) (λ n f _ l. writev_loop-Ends os n f l))
    | inr over ↦ rw over (all_sent inline_response k e (at_total k h over))
  ]

module _ (file : Bytes) (c : HttpConn) (whole : c.file_size ≡ length file) where
  abbrev pub file_response : Bytes
  file_response = c.response_head ++ file

  pub file-Offered :
      (k : ℕ)
      → length c.response_head ≤ k
      → leb c.file_size (k - length c.response_head) ≡ false
      → Offered file_response k (file_rest file (record c { write_offset = k }))
  unfolding file_rest
  file-Offered k h e =
      rw
        (take_all (c.file_size - (k - length c.response_head))
          (drop (k - length c.response_head) file)
          (omega (arith, length-drop (k - length c.response_head) file)))
        (body_Offered c.response_head file k h (ground arith))

  at_file_end :
      (k : ℕ)
      → length c.response_head ≤ k
      → k ≤ length file_response
      → leb c.file_size (k - length c.response_head) ≡ true
      → k ≡ length file_response
  at_file_end k h l e = ground (arith, length-append c.response_head file)

  sendfile_loop-Ends :
      (os : List Outcome) (k : ℕ) (e : Errno)
      → length c.response_head ≤ k
      → k ≤ length file_response
      → Ends c file_response k (sendfile_loop file os (sent_so_far c file_response k e))
  unfolding sendfile_loop
  sendfile_loop-Ends [] k e g h = elim (Bool-cases (leb c.file_size (k - length c.response_head))) [
    | inl over ↦ rw over (all_sent c file_response k e (at_file_end k g h over))
    | inr more ↦ rw more tt
  ]
  sendfile_loop-Ends (o ∷ os) k e g h =
      elim (Bool-cases (leb c.file_size (k - length c.response_head))) [
        | inl over ↦ rw over (all_sent c file_response k e (at_file_end k g h over))
        | inr more ↦ rw more (
            call-Ends c file_response (sendfile_loop file os)
              (file_rest file (record c { write_offset = k })) o k e h (file-Offered k g more)
              (λ n f j l. sendfile_loop-Ends os n f (omega arith) l))
      ]

  -- send for the head, then sendfile.
  pub send_loop-Ends :
      (os : List Outcome) (k : ℕ) (e : Errno)
      → k ≤ length file_response
      → Ends c file_response k (send_loop file os (sent_so_far c file_response k e))
  unfolding send_loop
  send_loop-Ends [] k e h = elim (Bool-cases (ltb k (length c.response_head))) [
    | inl more ↦ rw more tt
    | inr over ↦ rw over (sendfile_loop-Ends [] k e (ground arith) h)
  ]
  send_loop-Ends (o ∷ os) k e h = elim (Bool-cases (ltb k (length c.response_head))) [
    | inl more ↦ rw more (
        call-Ends c file_response (send_loop file os) (drop k c.response_head) o k e h
          (head_Offered c.response_head file k (ground arith)) (λ n f _ l. send_loop-Ends os n f l))
    | inr over ↦ rw over (sendfile_loop-Ends (o ∷ os) k e (ground arith) h)
  ]
