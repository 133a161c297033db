-- ===== src/Interface.antt =====
-- src/interface.c: the operations of an interface, and its setup, which is put off to the first of
-- them. `D` is the state of the driver behind it.
pub mod Setup
use libdfu.Base.{ℕ, Bool, true, false, not, Option, none, some, List, if◌then◌else◌}

-- `struct dfu_interface_ops`, with `start_cb`. A missing operation is `none`. A result of false or
-- `none` is a negative one. `read` gives the bytes that came, `write` the number of bytes that went.
pub record IfaceOps (D : Type 0) : Type 0 where
  pub start_cb : Option (D → Bool × D)
  pub open_op : Option (D → Option ℕ → Option ℕ → Bool × D)
  pub fini : Option (D → Bool × D)
  pub poll_idle : Option (D → Option ℕ × D)
  pub target_reset : Option (D → Bool × D)
  pub target_run : Option (D → Bool × D)
  pub read : Option (D → ℕ → Option (List ℕ) × D)
  pub write : Option (D → List ℕ → Option ℕ × D)
  pub write_read : Option (D → List ℕ → Option (List ℕ) × D)

-- `struct dfu_interface`; the path and the parameters are pointers.
pub record Interface (D : Type 0) : Type 0 where
  pub path : Option ℕ
  pub pars : Option ℕ
  pub setup_done : Bool
  pub device : D

abbrev pub has : {X : Type 0} → Option X → Bool
has none = false
has (some op) = true

module _ {D : Type 0} (ops : IfaceOps D) where
  pub open_device : Interface D → Option (D → Option ℕ → Option ℕ → Bool × D) → Bool × Interface D
  open_device i none = (false, i)
  open_device i (some op) =
      let (ok, d) = op i.device i.path i.pars in (ok, record i { device = d; setup_done = true })

  pub start_setup : Interface D → Option (D → Bool × D) → Bool × Interface D
  start_setup i none = open_device i ops.open_op
  start_setup i (some cb) =
      let (ok, d) = cb i.device in
      let opened = open_device (record i { device = d }) ops.open_op in
      if ok then opened else (false, record i { device = d })

  -- `_do_setup`
  unfoldable pub do_setup : Interface D → Bool × Interface D
  unfolding start_setup open_device
  do_setup i = start_setup i ops.start_cb

  -- `dfu_interface_open`, which only notes what to open
  pub interface_open : Interface D → Option ℕ → Option ℕ → Bool × Interface D
  interface_open i name params =
      if has ops.open_op
      then (true, record i { path = name; pars = params; setup_done = false })
      else (false, i)

  pub close_device : Interface D → Option (D → Bool × D) → Bool × Interface D
  close_device i none = (false, i)
  close_device i (some op) = let (ok, d) = op i.device in (ok, record i { device = d })

  unfoldable pub interface_fini : Interface D → Bool × Interface D
  unfolding close_device
  interface_fini i =
      let forgotten = record i { path = none; pars = none; setup_done = false } in
      let closed = close_device forgotten ops.fini in
      if i.setup_done then closed else (true, record i { path = none; pars = none })

  -- What `dfu_interface_poll_idle` returns, `none` for a negative value.
  pub poll_device : Interface D → Option (D → Option ℕ × D) → Option ℕ × Interface D
  poll_device i none = (none, i)
  poll_device i (some op) =
      let (events, d) = op i.device in
      if i.setup_done then (events, record i { device = d }) else (some 0, i)

  unfoldable pub interface_poll_idle : Interface D → Option ℕ × Interface D
  unfolding poll_device
  interface_poll_idle i = poll_device i ops.poll_idle

  module _ {A : Type 0} where
    -- The call of the operation itself.
    pub call_op : (D → Option A × D) → Interface D → Option A × Interface D
    call_op op i = let (r, d) = op i.device in (r, record i { device = d })

    -- How every other operation goes: nothing without it, and the setup if it has not been done.
    unfoldable pub with_setup : Option (D → Option A × D) → Interface D → Option A × Interface D
    unfolding call_op
    with_setup none i = (none, i)
    with_setup (some op) i =
        let (ready, i') = do_setup i in
        let called = call_op op i' in
        if i.setup_done then call_op op i else if ready then called else (none, i')

  abbrev as_option : Bool × D → Option (Unit {0}) × D
  as_option (true, d) = (some tt, d)
  as_option (false, d) = (none, d)

  abbrev flag_op : Option (D → Bool × D) → Option (D → Option (Unit {0}) × D)
  flag_op none = none
  flag_op (some op) = some (λ d. as_option (op d))

  abbrev sized_op : {A B : Type 0} → Option (D → B → Option A × D) → B → Option (D → Option A × D)
  sized_op none b = none
  sized_op (some op) b = some (λ d. op d b)

  abbrev pub interface_target_reset : Interface D → Option (Unit {0}) × Interface D
  interface_target_reset i = with_setup (flag_op ops.target_reset) i

  abbrev pub interface_target_run : Interface D → Option (Unit {0}) × Interface D
  interface_target_run i = with_setup (flag_op ops.target_run) i

  abbrev pub interface_read : Interface D → ℕ → Option (List ℕ) × Interface D
  interface_read i sz = with_setup (sized_op ops.read sz) i

  abbrev pub interface_write : Interface D → List ℕ → Option ℕ × Interface D
  interface_write i buf = with_setup (sized_op ops.write buf) i

  abbrev pub interface_write_read : Interface D → List ℕ → Option (List ℕ) × Interface D
  interface_write_read i wr_buf = with_setup (sized_op ops.write_read wr_buf) i
