-- ===== src/Interface/Setup.antt =====
-- The setup that each operation asks for runs once, before the first of them.
use mathlib.Core.Bool.{true≢false}
use libdfu.Base.{
  ◌≡◌, refl, ap, sym, ◌∙◌, Bool, true, false, Option, none, some, List, [], ◌∷◌, Bool-cases, inl,
  inr, if◌then◌else◌, ℕ,
}
use libdfu.Interface.{IfaceOps, Interface, do_setup, open_device, start_setup, call_op, with_setup}

-- What is left to do goes on with the interface unless the call failed.
abbrev pub go_on_with :
    {D A : Type 0} → (Interface D → Interface D) → Option A × Interface D → Interface D
go_on_with rest (none, i) = i
go_on_with rest (some a, i) = rest i

module _ {D : Type 0} (ops : IfaceOps D) where
  opened-setup_done :
      (i : Interface D) (o : Option (D → Option ℕ → Option ℕ → Bool × D))
      → (open_device ops i o).0 ≡ true
      → (open_device ops i o).1.setup_done ≡ true
  unfolding open_device
  opened-setup_done i none e = absurd (true≢false (sym e))
  opened-setup_done i (some op) e = refl

  started-setup_done :
      (i : Interface D) (o : Option (D → Bool × D))
      → (start_setup ops i o).0 ≡ true
      → (start_setup ops i o).1.setup_done ≡ true
  unfolding start_setup
  started-setup_done i none e = opened-setup_done i ops.open_op e
  started-setup_done i (some cb) e = elim (Bool-cases (cb i.device).0) [
    | inl ok ↦
        rw ok (opened-setup_done (record i { device = (cb i.device).1 }) ops.open_op (rw ok at e))
    | inr failed ↦ absurd (true≢false (sym (rw failed at e)))
  ]

  do_setup-setup_done :
      (i : Interface D) → (do_setup ops i).0 ≡ true → (do_setup ops i).1.setup_done ≡ true
  unfolding do_setup
  do_setup-setup_done i e = started-setup_done i ops.start_cb e

module _ {D A : Type 0} (ops : IfaceOps D) where
  -- Operations one after another, up to the first that fails.
  abbrev pub run_ops : List (D → Option A × D) → Interface D → Interface D
  run_ops [] i = i
  run_ops (op ∷ rest) i = go_on_with (run_ops rest) (with_setup ops (some op) i)

  -- The same on the driver itself, without any setup.
  abbrev pub run_direct : List (D → Option A × D) → Interface D → Interface D
  run_direct [] i = i
  run_direct (op ∷ rest) i = go_on_with (run_direct rest) (call_op ops op i)

  with_setup-ready :
      (op : D → Option A × D) (i : Interface D)
      → i.setup_done ≡ true
      → with_setup ops (some op) i ≡ call_op ops op i
  unfolding with_setup
  with_setup-ready op i e =
      ap
        (λ b.
          if b
          then call_op ops op i
          else (if (do_setup ops i).0
              then call_op ops op (do_setup ops i).1
              else (none, (do_setup ops i).1)))
        e

  run_ready :
      (calls : List (D → Option A × D)) (i : Interface D)
      → i.setup_done ≡ true
      → run_ops calls i ≡ run_direct calls i
  unfolding call_op
  run_ready [] i e = refl
  run_ready (op ∷ rest) i e =
      ap (go_on_with (run_ops rest)) (with_setup-ready op i e)
      ∙ called (op i.device).0 (record i { device = (op i.device).1 })
          (run_ready rest (record i { device = (op i.device).1 }) e)
    where
      called :
          (o : Option A) (i' : Interface D)
          → run_ops rest i' ≡ run_direct rest i'
          → go_on_with (run_ops rest) (o, i') ≡ go_on_with (run_direct rest) (o, i')
      called none i' same = refl
      called (some a) i' same = same

  -- Where the setup succeeds, any sequence of operations on an interface that is not set up does the
  -- setup once, and then what the driver's own operations do in that order.
  pub run_ops-sets_up_once :
      (op : D → Option A × D) (rest : List (D → Option A × D)) (i : Interface D)
      → i.setup_done ≡ false
      → (do_setup ops i).0 ≡ true
      → run_ops (op ∷ rest) i ≡ run_direct (op ∷ rest) (do_setup ops i).1
  unfolding with_setup
  run_ops-sets_up_once op rest i fresh ok =
      let ready = do_setup-setup_done ops i ok in
      ap (go_on_with (run_ops rest)) (
        ap (λ b. if b then call_op ops op i else unset) fresh
        ∙ ap (λ b. if b then call_op ops op (do_setup ops i).1 else (none, (do_setup ops i).1)) ok
        ∙ sym (with_setup-ready op (do_setup ops i).1 ready))
      ∙ run_ready (op ∷ rest) (do_setup ops i).1 ready
    where
      unset : Option A × Interface D
      unset =
          if (do_setup ops i).0
          then call_op ops op (do_setup ops i).1
          else (none, (do_setup ops i).1)
