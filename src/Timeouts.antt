-- ===== src/Timeouts.antt =====
-- The timeout list of src/dfu.c: `_insert_timeout` and `_remove_timeout`, which `dfu_set_timeout` and
-- `dfu_cancel_timeout` call. A `struct dfu_timeout *` is a number; `values` is the `timeout` field of
-- each, an `int`. `long` has 64 bits, as on the Linux host. A slot is empty for a null pointer.
pub mod Deadlines
pub mod Insert
pub mod Remove
use libdfu.Base.{
  ℕ, zero, suc, ◌+◌, ◌-◌, Bool, true, false, Option, none, some, List, ◌==◌, ltb, if◌then◌else◌,
  get_or, set,
}
use libdfu.Base.Word.{add32, sub32, slt32}

-- CONFIG_DFU_MAX_TIMEOUTS, the size of `timeouts`
abbrev pub max_timeouts : ℕ
max_timeouts = 4

pub record Timers : Type 0 where
  pub slots : List (Option ℕ)
  pub values : ℕ → ℕ

abbrev pub update : (ℕ → ℕ) → ℕ → ℕ → ℕ → ℕ
update f p v q = if p == q then v else f q

abbrev pub is_some : Option ℕ → Bool
is_some none = false
is_some (some p) = true

-- The macro `time_after` on two `int`s, which are converted to `long`.
abbrev pub time_after : ℕ → ℕ → Bool
time_after a b = slt32 b a

-- for (j = 3; j >= i; j--) timeouts[j] = timeouts[j - 1], with `n` rounds to go. With i = 0 the last
-- round reads before the array; here it reads slot 0. What it writes is overwritten at once.
pub shift_right : ℕ → ℕ → List (Option ℕ) → List (Option ℕ)
shift_right zero i slots = slots
shift_right (suc n) i slots = shift_right n i (set slots (i + n) (get_or slots (i + n - 1) none))

-- `timeouts[i + 1]->timeout -= to->timeout`, where that slot is not empty
abbrev pub shorten : Option ℕ → ℕ → Timers → Timers
shorten none to t = t
shorten (some next) to t = record t {
  values = update t.values next (sub32 (t.values next) (t.values to));
}

-- Make slot `i` available for the new timeout.
pub place : ℕ → ℕ → Timers → Bool × Timers
place i to t =
    if is_some (get_or t.slots (max_timeouts - 1) none)
    then (false, t)
    else (let slots = set (shift_right (max_timeouts - i) i t.slots) i (some to) in
        (true, shorten (get_or slots (i + 1) none) to (record t { slots = slots })))

-- One round of the loop at index `i`, by what the slot holds; `continue` is the rounds behind it.
pub insert_slot : (Timers → Bool × Timers) → ℕ → ℕ → Timers → Option ℕ → Bool × Timers
insert_slot continue i to t none = (true, record t { slots = set t.slots i (some to) })
insert_slot continue i to t (some ptr) =
    let later =
      continue (record t { values = update t.values to (sub32 (t.values to) (t.values ptr)) }) in
    if time_after (t.values to) (t.values ptr) then later else place i to t

-- The rounds of the loop from index `i` on, `n` of them; false is for -1.
pub insert_from : ℕ → ℕ → ℕ → Timers → Bool × Timers
insert_from zero i to t = (false, t)
insert_from (suc n) i to t = insert_slot (insert_from n (i + 1) to) i to t (get_or t.slots i none)

unfoldable pub insert_timeout : Timers → ℕ → ℕ → Bool × Timers
insert_timeout t to now =
    insert_from max_timeouts 0 to
      (record t { values = update t.values to (add32 (t.values to) now) })

abbrev pub holds : Option ℕ → ℕ → Bool
holds none to = false
holds (some p) to = p == to

-- for (i = 0; i < 4 && timeouts[i] != to; i++), with `n` rounds to go
pub find : ℕ → ℕ → ℕ → List (Option ℕ) → ℕ
find zero i to slots = i
find (suc n) i to slots =
    let rest = find n (i + 1) to slots in if holds (get_or slots i none) to then i else rest

-- for (; i < 3; i++) timeouts[i] = timeouts[i + 1], with `n` rounds to go
pub shift_left : ℕ → ℕ → List (Option ℕ) → List (Option ℕ)
shift_left zero i slots = slots
shift_left (suc n) i slots = shift_left n (i + 1) (set slots i (get_or slots (i + 1) none))

-- `timeouts[i + 1]->timeout += timeouts[i]->timeout`, where that slot is not empty
abbrev pub lengthen : Option ℕ → ℕ → Timers → Timers
lengthen none to t = t
lengthen (some next) to t = record t {
  values = update t.values next (add32 (t.values next) (t.values to));
}

-- What follows the search, at the index that it ended on.
pub remove_at : Timers → ℕ → ℕ → Bool × Timers
remove_at t to i =
    let t' = if ltb i (max_timeouts - 1) then lengthen (get_or t.slots (i + 1) none) to t else t in
    if i == max_timeouts then (false, t) else (
      true,
      record t' {
        slots = set (shift_left (max_timeouts - 1 - i) i t.slots) (max_timeouts - 1) none;
      },
    )

unfoldable pub remove_timeout : Timers → ℕ → Bool × Timers
remove_timeout t to = remove_at t to (find max_timeouts 0 to t.slots)
