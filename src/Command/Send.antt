-- ===== src/Command/Send.antt =====
-- `_do_send` sends all of its bytes, in order, or fails.
use libdfu.Base.{
  ℕ, zero, suc, ◌≤◌, ◌<◌, ◌≡◌, sym, ap, ◌∙◌, Option, none, some, List, [], ◌∷◌, ◌++◌, ◌==◌,
  append-nil, append_assoc, true, length, take, drop, length-drop, take-append-drop, arith,
  Bool-cases, inl, inr,
}
use libdfu.Interface.{IfaceOps, Interface, interface_write}
use libdfu.Command.{Transfer, transferred, failed, endless, sent_part, send_loop, do_send}

-- What a write of some bytes did to what the target has been sent.
abbrev pub Wrote :
    {D : Type 0} → (Interface D → List ℕ) → Interface D → List ℕ → Option ℕ × Interface D → Type 0
Wrote log i bytes (none, i') = Unit
Wrote log i bytes (some n, i') = (0 < n) × (n ≤ length bytes) × (log i' ≡ log i ++ take n bytes)

-- What `_do_send` promises: it ends, and it has sent all or failed.
abbrev pub Sent :
    {D : Type 0} → (Interface D → List ℕ) → Interface D → List ℕ → Transfer × Interface D → Type 0
Sent log i bytes (transferred, i') = log i' ≡ log i ++ bytes
Sent log i bytes (failed, i') = Unit
Sent log i bytes (endless, i') = ⊥

-- A driver that takes a byte at least of what it is given, or fails.
abbrev pub TakesBytes : {D : Type 0} → IfaceOps D → (Interface D → List ℕ) → Type 0
TakesBytes {D = D} ops log =
    (i : Interface D) (bytes : List ℕ)
    → 0 < length bytes
    → Wrote log i bytes (interface_write ops i bytes)

module _ {D : Type 0} (ops : IfaceOps D) (log : Interface D → List ℕ)
    (takes : TakesBytes ops log) where
  Sent-trans :
      (i mid : Interface D) (bytes : List ℕ) (n : ℕ) (r : Transfer × Interface D)
      → log mid ≡ log i ++ take n bytes
      → Sent log mid (drop n bytes) r
      → Sent log i bytes r
  Sent-trans i mid bytes n (transferred, i') e s =
      s
      ∙ ap (λ l. l ++ drop n bytes) e
      ∙ append_assoc (log i) (take n bytes) (drop n bytes)
      ∙ ap (λ l. log i ++ l) (take-append-drop n bytes)
  Sent-trans i mid bytes n (failed, i') e s = tt
  Sent-trans i mid bytes n (endless, i') e s = s

  round-Sent :
      (n : ℕ) (i : Interface D) (bytes : List ℕ) (r : Option ℕ × Interface D)
      → length bytes ≤ suc n
      → Wrote log i bytes r
      → ((i' : Interface D) (rest : List ℕ)
          → length rest ≤ n
          → Sent log i' rest (send_loop ops n rest i'))
      → Sent log i bytes (sent_part ops (send_loop ops n) bytes r)
  unfolding sent_part
  round-Sent n i bytes (none, i') le w ih = tt
  round-Sent n i bytes (some m, i') le w ih =
      Sent-trans i i' bytes m (send_loop ops n (drop m bytes) i') w.2
        (ih i' (drop m bytes) (omega (arith, length-drop m bytes, w.0, w.1)))

  nothing_left : (i : Interface D) (bytes : List ℕ) → length bytes ≡ 0 → log i ≡ log i ++ bytes
  nothing_left i [] e = sym (append-nil (log i))
  nothing_left i (b ∷ bytes) e = absurd (omega arith)

  send_loop-Sent :
      (n : ℕ) (bytes : List ℕ) (i : Interface D)
      → length bytes ≤ n
      → Sent log i bytes (send_loop ops n bytes i)
  unfolding send_loop
  send_loop-Sent zero bytes i le =
      let none_left : (length bytes == 0) ≡ true = ground arith in
      rw none_left (nothing_left i bytes (omega arith))
  send_loop-Sent (suc n) bytes i le = elim (Bool-cases (length bytes == 0)) [
    | inl end ↦ rw end (nothing_left i bytes (ground (arith, end)))
    | inr more ↦ rw more (
        round-Sent n i bytes (interface_write ops i bytes) le (takes i bytes (ground (arith, more)))
          (λ i' rest h. send_loop-Sent n rest i' h))
  ]

  -- With a driver that takes one byte at least of what it is given or fails, `_do_send` ends, and
  -- unless it fails the driver has been given all the bytes, in order and each once.
  pub do_send-Sent : (bytes : List ℕ) (i : Interface D) → Sent log i bytes (do_send ops bytes i)
  unfolding do_send
  do_send-Sent bytes i = send_loop-Sent (length bytes) bytes i (omega arith)
