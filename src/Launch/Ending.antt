-- ===== src/Launch/Ending.antt =====
-- The end of a history chain of AppLaunchEventState in src/manager/event_manager.cc, and the other
-- operations, which end none.
use android_system_iorap.Prelude.{
  ℕ, ◌≡◌, refl, ◌∙◌, ap, ◌≤◌, ◌<◌, Bool, true, false, [], ◌∷◌, ◌++◌, Option, none, some, arith,
  if◌then◌else◌, Bool-cases, inl, inr, ◌==◌, ==_iff,
}
use android_system_iorap.Prelude.Outcome.{Outcome, ok, fatal, stalled, ◌>>=◌}
use android_system_iorap.Prelude.Totals.{count, count-snoc}
use android_system_iorap.Launch.{}
use android_system_iorap.Launch.State.{
  Env, AppLaunchEventState, dcheck, Effect, history_error, history_next,
}
use android_system_iorap.Launch.History.{
  end_chain, record_db_launch_history, insert_db_launch_history,
}
use android_system_iorap.Launch.Handler.{new_chain, fail_chain}
use android_system_iorap.Launch.Quiet.{ends, ended, Quiet, Quietly, insert_db_launch_history-Quiet}

-- A chain is ended at most once, and one that is to come or that the state still holds is not.
abbrev pub EndsOnce : AppLaunchEventState → Type 0
EndsOnce s =
    (c : ℕ)
    → (ended c s ≤ 1)
      × (s.chains ≤ c → ended c s ≡ 0)
      × (s.history_id_subscriber ≡ some c → (c < s.chains) × (ended c s ≡ 0))

abbrev pub Kept : Outcome AppLaunchEventState → Type 0
Kept fatal = Unit
Kept stalled = Unit
Kept (ok s) = EndsOnce s

pub Quiet-Kept : (s t : AppLaunchEventState) → Quiet s t → EndsOnce s → EndsOnce t
Quiet-Kept s t (a, b, f) inv c = rw (a, b, f c) (inv c)

pub Quietly-Kept :
    (s : AppLaunchEventState) (o : Outcome AppLaunchEventState) → Quietly s o → EndsOnce s → Kept o
Quietly-Kept s fatal q inv = tt
Quietly-Kept s stalled q inv = tt
Quietly-Kept s (ok t) q inv = Quiet-Kept s t q inv

pub dcheck-Kept : (b : Bool) (o : Outcome AppLaunchEventState) → Kept o → Kept (dcheck b o)
dcheck-Kept true o k = k
dcheck-Kept false o k = tt

pub if-Kept :
    (b : Bool) (x y : Outcome AppLaunchEventState) → Kept x → Kept y → Kept (if b then x else y)
if-Kept true x y p q = p
if-Kept false x y p q = q

pub >>=-Kept :
    (o : Outcome AppLaunchEventState) (f : AppLaunchEventState → Outcome AppLaunchEventState)
    → Kept o
    → ((t : AppLaunchEventState) → EndsOnce t → Kept (f t))
    → Kept (o >>= f)
>>=-Kept fatal f p q = tt
>>=-Kept stalled f p q = tt
>>=-Kept (ok t) f p q = q t p

pub new_chain-EndsOnce : (s : AppLaunchEventState) → EndsOnce s → EndsOnce (new_chain s)
new_chain-EndsOnce s inv c =
    let (a, b, d) = inv c in
    (
      a,
      (λ h. b (omega arith)),
      (λ h. let e : s.chains ≡ c = ground arith in (omega arith, b (omega arith))),
    )

count_end :
    (s : AppLaunchEventState) (e : Effect) (chain c : ℕ)
    → ends c e ≡ (chain == c)
    → s.history_id_subscriber ≡ some chain
    → EndsOnce s
    → (count (ends c) (s.effects ++ e ∷ []) ≤ 1)
      × (s.chains ≤ c → count (ends c) (s.effects ++ e ∷ []) ≡ 0)
count_end s e chain c h held inv = elim (Bool-cases (chain == c)) [
  | inl same ↦
      let (low, zero) = (inv c).2 (held ∙ ap some ((==_iff chain c).0 same)) in
      (ground (arith, count-snoc (ends c) s.effects e), (λ k. absurd (omega arith)))
  | inr other ↦
      let (a, b, d) = inv c in
      (
        ground (arith, count-snoc (ends c) s.effects e),
        (λ k. ground (arith, count-snoc (ends c) s.effects e, b k)),
      )
]

no_subscriber : {A : Type 0} (c : ℕ) → none ≡ some c → A
no_subscriber c h = absurd (ground arith)

pub fail_chain-EndsOnce :
    (o : Option ℕ) (s : AppLaunchEventState)
    → s.history_id_subscriber ≡ o
    → EndsOnce s
    → EndsOnce (fail_chain o s)
fail_chain-EndsOnce none s held inv c = inv c
fail_chain-EndsOnce (some chain) s held inv c =
    let (a, b) = count_end s (history_error chain) chain c refl held inv in (a, b, no_subscriber c)

end_chain-EndsOnce :
    (o h : Option ℕ) (s : AppLaunchEventState)
    → s.history_id_subscriber ≡ o
    → EndsOnce s
    → EndsOnce (end_chain o h s)
end_chain-EndsOnce none h s held inv c = inv c
end_chain-EndsOnce (some chain) none s held inv c =
    let (a, b) = count_end s (history_error chain) chain c refl held inv in (a, b, no_subscriber c)
end_chain-EndsOnce (some chain) (some id) s held inv c =
    let (a, b) = count_end s (history_next chain id) chain c refl held inv in
    (a, b, no_subscriber c)

pub record_db_launch_history-EndsOnce :
    (env : Env) (s : AppLaunchEventState) → EndsOnce s → EndsOnce (record_db_launch_history env s)
unfolding record_db_launch_history
record_db_launch_history-EndsOnce env s inv =
    let (h, t) = insert_db_launch_history env s in
    end_chain-EndsOnce t.history_id_subscriber h t refl
      (Quiet-Kept s t (insert_db_launch_history-Quiet env s) inv)
