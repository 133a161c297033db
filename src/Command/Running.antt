-- ===== src/Command/Running.antt =====
-- The state of a command under every call that the target and the idle loop make: while it runs, its
-- index names one of its buffers and the target is busy; when it has ended, the target is ready.
use mathlib.Core.Bool.{true≢false}
use libdfu.Base.{
  ℕ, ◌+◌, ◌<◌, ◌≡◌, refl, sym, ap, ◌∙◌, Bool, true, false, not, ◌&&◌, Option, none, some, ◌==◌, leb,
  length, arith, Bool-cases, inl, inr,
}
use libdfu.Command.{
  Memory, CmdDescr, Machine, is_none_dir, is_retrying, is_running, status_initialized,
  status_retrying,
}
use libdfu.Command.Next.{
  buf_at, end_with, cmd_end, advance, next_after, completed_buf, next_buf, on_cmd_timeout, cancel,
}

-- A command that the engine can run: it has a buffer, and a buffer with a retry goes back to one that
-- has none.
pub record IsCommand {D : Type 0} (descr : CmdDescr D) : Type 0 where
  pub some_buf : 0 < length descr.cmdbufs
  pub retry_in :
      (k : ℕ)
      → (buf_at descr k).retry_on_error ≡ true
      → (buf_at descr k).next_on_retry < length descr.cmdbufs
  pub retry_once :
      (k : ℕ)
      → (buf_at descr k).retry_on_error ≡ true
      → (buf_at descr (buf_at descr k).next_on_retry).retry_on_error ≡ false

module _ {D : Type 0} (descr : CmdDescr D) where
  pub record Live (m : Machine D) : Type 0 where
    pub running : is_running m.status ≡ true
    pub in_range : m.cmdbuf_index < length descr.cmdbufs
    pub busy : m.busy ≡ true
    pub calm : is_retrying m.status ≡ true → (buf_at descr m.cmdbuf_index).retry_on_error ≡ false

  -- The command runs and is in range with the target busy, or has ended with the target ready.
  pub record IsSound (m : Machine D) : Type 0 where
    pub live : is_running m.status ≡ true → Live m
    pub idle : is_running m.status ≡ false → m.busy ≡ false

  pub Live-IsSound : (m : Machine D) → Live m → IsSound m
  Live-IsSound m l = record { live = λ e. l; idle = λ e. absurd (true≢false (sym l.running ∙ e)) }

  -- Nothing that counts has changed.
  pub Live-kept :
      (m m' : Machine D)
      → m'.status ≡ m.status
      → m'.cmdbuf_index ≡ m.cmdbuf_index
      → m'.busy ≡ m.busy
      → Live m
      → Live m'
  Live-kept m m' s i b l = record {
    running = rw s l.running;
    in_range = rw i l.in_range;
    busy = rw b l.busy;
    calm = rw (s, i) l.calm;
  }

  pub ended-IsSound : (m : Machine D) → is_running m.status ≡ false → m.busy ≡ false → IsSound m
  ended-IsSound m e b = record { live = λ r. absurd (true≢false (sym r ∙ e)); idle = λ r. b }

  pub cmd_end-IsSound : (m : Machine D) (ok : Bool) → IsSound (cmd_end descr m ok).1
  unfolding cmd_end end_with
  cmd_end-IsSound m true = ended-IsSound _ refl refl
  cmd_end-IsSound m false = ended-IsSound _ refl refl

  advance-IsSound :
      (m : Machine D)
      → m.busy ≡ true
      → is_running m.status ≡ true
      → (is_retrying m.status ≡ true
          → (m.cmdbuf_index < length descr.cmdbufs)
            × ((buf_at descr m.cmdbuf_index).retry_on_error ≡ false))
      → IsSound (advance descr m).1
  unfolding advance
  advance-IsSound m busy running back =
      elim (Bool-cases (leb (length descr.cmdbufs) m.cmdbuf_index && not (is_retrying m.status))) [
        | inl end ↦ rw end (cmd_end-IsSound m true)
        | inr on ↦ rw on (
            Live-IsSound m (record {
              running = running;
              in_range = elim (Bool-cases (is_retrying m.status)) [
                | inl again ↦ (back again).0
                | inr forward ↦ ground (arith, on, forward)
              ];
              busy = busy;
              calm = λ again. (back again).1;
            }))
      ]

module _ {D : Type 0} (descr : CmdDescr D) (good : IsCommand descr) where
  -- A buffer without a retry: the next one is new, or the command ends.
  forward-IsSound :
      (m m' : Machine D)
      → m'.busy ≡ m.busy
      → Live descr m
      → IsSound descr
          (advance descr
            (record m' { cmdbuf_index = m.cmdbuf_index + 1; status = status_initialized })).1
  forward-IsSound m m' same l =
      advance-IsSound descr
        (record m' { cmdbuf_index = m.cmdbuf_index + 1; status = status_initialized })
        (same ∙ l.busy) refl (λ e. absurd (true≢false (sym e)))

  -- A buffer with a retry that went well.
  passed-IsSound :
      (m m' : Machine D)
      → m'.busy ≡ m.busy
      → m'.status ≡ m.status
      → Live descr m
      → (buf_at descr m.cmdbuf_index).retry_on_error ≡ true
      → IsSound descr (advance descr (record m' { cmdbuf_index = m.cmdbuf_index + 1 })).1
  passed-IsSound m m' same_busy same_status l retry =
      advance-IsSound descr (record m' { cmdbuf_index = m.cmdbuf_index + 1 }) (same_busy ∙ l.busy)
        (ap is_running same_status ∙ l.running)
        (λ e. absurd (true≢false (sym retry ∙ l.calm (ap is_retrying (sym same_status) ∙ e))))

  again-IsSound :
      (m : Machine D)
      → Live descr m
      → (buf_at descr m.cmdbuf_index).retry_on_error ≡ true
      → IsSound descr
          (advance descr (record m {
            cmdbuf_index = (buf_at descr m.cmdbuf_index).next_on_retry;
            status = status_retrying;
          })).1
  again-IsSound m l retry =
      advance-IsSound descr
        (record m {
          cmdbuf_index = (buf_at descr m.cmdbuf_index).next_on_retry;
          status = status_retrying;
        })
        l.busy refl
        (λ e. (good.retry_in m.cmdbuf_index retry, good.retry_once m.cmdbuf_index retry))

  next_after-IsSound :
      (m : Machine D) (ok : Bool)
      → Live descr m
      → IsSound descr (next_after descr m (buf_at descr m.cmdbuf_index) ok).1
  unfolding next_after
  next_after-IsSound m true l =
      let buf = buf_at descr m.cmdbuf_index in
      let cancelled = record m { timers = cancel descr m.timers descr.timeout } in
      elim (Bool-cases buf.retry_on_error) [
        | inl retry ↦ elim (Bool-cases (buf.timeout == 0)) [
          | inl none_set ↦ rw (retry, none_set) (passed-IsSound m m refl refl l retry)
          | inr timed ↦ rw (retry, timed) (passed-IsSound m cancelled refl refl l retry)
        ]
        | inr once ↦ elim (Bool-cases (not (buf.timeout == 0) && not (is_none_dir buf.dir))) [
          | inl timed ↦ rw (once, timed) (forward-IsSound m cancelled refl l)
          | inr none_set ↦ rw (once, none_set) (forward-IsSound m m refl l)
        ]
      ]
  next_after-IsSound m false l =
      let buf = buf_at descr m.cmdbuf_index in
      elim (Bool-cases buf.retry_on_error) [
        | inl retry ↦ rw retry (again-IsSound m l retry)
        | inr once ↦ rw once (cmd_end-IsSound descr _ false)
      ]

  completed_buf-IsSound :
      (m : Machine D) (o : Option (Memory → Bool × Memory))
      → Live descr m
      → IsSound descr (completed_buf descr m (buf_at descr m.cmdbuf_index) o).1
  unfolding completed_buf
  completed_buf-IsSound m none l = next_after-IsSound m true l
  completed_buf-IsSound m (some cb) l =
      next_after-IsSound (record m { memory = (cb m.memory).1 }) (cb m.memory).0
        (Live-kept descr m (record m { memory = (cb m.memory).1 }) refl refl refl l)

  pub next_buf-IsSound : (m : Machine D) → Live descr m → IsSound descr (next_buf descr m).1
  unfolding next_buf
  next_buf-IsSound m l = completed_buf-IsSound m (buf_at descr m.cmdbuf_index).completed l

  -- A timeout that goes off while the command runs.
  pub on_cmd_timeout-IsSound :
      (m : Machine D) → Live descr m → IsSound descr (on_cmd_timeout descr m)
  unfolding on_cmd_timeout end_with
  on_cmd_timeout-IsSound m l = elim (Bool-cases (is_none_dir (buf_at descr m.cmdbuf_index).dir)) [
    | inl delay ↦ rw delay (next_buf-IsSound m l)
    | inr wait ↦ rw wait (ended-IsSound descr _ refl refl)
  ]
