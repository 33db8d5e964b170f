-- ===== src/Log/Async/Order/Run.antt =====
-- Whole schedules: what was logged reaches the file in order.
use mathlib.Core.Option.{some-injective, none-ne-some}
use distributed_instant_mess.Log.Async.Handover.{run_never_fails}
use distributed_instant_mess.Base.{
  ℕ, ◌^◌, ◌≤◌, ◌<◌, ◌≡◌, refl, sym, ap, subst, ◌∙◌, inl, inr, List, [], ◌∷◌, ◌++◌, none, some,
  length, append-nil, append_assoc, Option-cases,
}
use distributed_instant_mess.Log.Async.{
  Logger, init, append, work, Action, logs, works, step, run, bytes_of, max_backlog,
}
use distributed_instant_mess.Log.Async.Order.{
  accepted, IsClean, kept, append-accepted, init-IsClean, init-accepted,
}
use distributed_instant_mess.Log.Async.Order.Rounds.{work-accepted}

-- Lines are shorter than 2 ^ 31 bytes, and no more than 25 buffers wait when the log thread writes.
abbrev pub KeepsUp : ℕ → Logger → List Action → Type 0
KeepsUp capacity s [] = Unit
KeepsUp capacity s (logs line ∷ actions) =
    (length line < 2 ^ 31) × KeepsUp capacity (append capacity s line) actions
KeepsUp capacity s (works ∷ actions) =
    (length s.to_write ≤ max_backlog)
    × ((t : Logger) → work s ≡ some t → KeepsUp capacity t actions)

-- The lines that fit in a buffer, in order.
abbrev pub kept_lines : ℕ → List Action → List ℕ
kept_lines capacity [] = []
kept_lines capacity (logs line ∷ actions) = kept capacity line ++ kept_lines capacity actions
kept_lines capacity (works ∷ actions) = kept_lines capacity actions

run-accepted :
    (capacity : ℕ) (s t : Logger) (actions : List Action)
    → IsClean capacity s
    → KeepsUp capacity s actions
    → run capacity s actions ≡ some t
    → accepted t ≡ accepted s ++ kept_lines capacity actions
unfolding run step
run-accepted capacity s t [] c k e =
    ap accepted (sym (some-injective s t e)) ∙ sym (append-nil (accepted s))
run-accepted capacity s t (logs line ∷ actions) c k e =
    let (d, a) = append-accepted capacity s line k.0 c in
    run-accepted capacity (append capacity s line) t actions d k.1 e ∙ rw a (simp append_assoc)
run-accepted capacity s t (works ∷ actions) c k e = elim (Option-cases (work s)) [
  | inl gone ↦ absurd (
      none-ne-some t
        (subst (λ o. elim o [ none ↦ none | some u ↦ run capacity u actions ] ≡ some t) gone e))
  | inr (u, f) ↦
      let (d, a) = work-accepted capacity s u k.0 c f in
      run-accepted capacity u t actions d (k.1 u f)
        (subst (λ o. elim o [ none ↦ none | some v ↦ run capacity v actions ] ≡ some t) f e)
      ∙ ap (λ l. l ++ kept_lines capacity actions) a
]

-- Every schedule that keeps up comes back, and then the file, the buffers on their way to it, the
-- full buffers and the current one hold, in this order, the lines that were logged and are shorter
-- than a buffer: nothing is lost, doubled or swapped, and the file is a first part of what was logged.
pub run_order :
    (capacity : ℕ) (actions : List Action)
    → KeepsUp capacity (init capacity) actions
    → (s : Logger) × (run capacity (init capacity) actions ≡ some s)
      × (s.file ++ (bytes_of s.to_write ++ (bytes_of s.buffers ++ s.current.written))
          ≡ kept_lines capacity actions)
run_order capacity actions k =
    let (s, e, v) = run_never_fails capacity actions in
    (
      s,
      e,
      run-accepted capacity (init capacity) s actions (init-IsClean capacity) k e
          ∙ rw (init-accepted capacity) refl,
    )
