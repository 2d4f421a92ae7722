-- ===== src/Perfetto/Sections.antt =====
-- The counts of begun, ended and open atrace sections, for src/perfetto/perfetto_consumer.cc.
use android_system_iorap.Prelude.{
  ℕ, ◌+◌, ◌≡◌, refl, ◌==◌, ltb, Bool, true, false, ◌&&◌, not, List, [], ◌∷◌, ◌++◌, Option, none,
  some, arith, if◌then◌else◌, Bool-cases, inl, inr,
}
use android_system_iorap.Perfetto.{
  HandleDescription, PerfettoCall, raw_start_tracing, raw_read_trace, raw_destroy, atrace_begin,
  atrace_end, send_message, trace_failed, find_handle, put_handle, erase_handle, insert_handle,
}

abbrev pub begins : ℕ → List PerfettoCall → ℕ
begins c [] = 0
begins c (atrace_begin k ∷ calls) = (if k == c then 1 else 0) + begins c calls
begins c (atrace_end k ∷ calls) = begins c calls
begins c (raw_start_tracing h ∷ calls) = begins c calls
begins c (raw_read_trace h ∷ calls) = begins c calls
begins c (raw_destroy h ∷ calls) = begins c calls
begins c (send_message h ∷ calls) = begins c calls
begins c (trace_failed h a ∷ calls) = begins c calls

abbrev pub ends : ℕ → List PerfettoCall → ℕ
ends c [] = 0
ends c (atrace_end k ∷ calls) = (if k == c then 1 else 0) + ends c calls
ends c (atrace_begin k ∷ calls) = ends c calls
ends c (raw_start_tracing h ∷ calls) = ends c calls
ends c (raw_read_trace h ∷ calls) = ends c calls
ends c (raw_destroy h ∷ calls) = ends c calls
ends c (send_message h ∷ calls) = ends c calls
ends c (trace_failed h a ∷ calls) = ends c calls

pub begins-append :
    (c : ℕ) (xs ys : List PerfettoCall) → begins c (xs ++ ys) ≡ begins c xs + begins c ys
begins-append c [] ys = omega arith
begins-append c (atrace_begin k ∷ xs) ys = omega (arith, begins-append c xs ys)
begins-append c (atrace_end k ∷ xs) ys = begins-append c xs ys
begins-append c (raw_start_tracing h ∷ xs) ys = begins-append c xs ys
begins-append c (raw_read_trace h ∷ xs) ys = begins-append c xs ys
begins-append c (raw_destroy h ∷ xs) ys = begins-append c xs ys
begins-append c (send_message h ∷ xs) ys = begins-append c xs ys
begins-append c (trace_failed h a ∷ xs) ys = begins-append c xs ys

pub ends-append : (c : ℕ) (xs ys : List PerfettoCall) → ends c (xs ++ ys) ≡ ends c xs + ends c ys
ends-append c [] ys = omega arith
ends-append c (atrace_end k ∷ xs) ys = omega (arith, ends-append c xs ys)
ends-append c (atrace_begin k ∷ xs) ys = ends-append c xs ys
ends-append c (raw_start_tracing h ∷ xs) ys = ends-append c xs ys
ends-append c (raw_read_trace h ∷ xs) ys = ends-append c xs ys
ends-append c (raw_destroy h ∷ xs) ys = ends-append c xs ys
ends-append c (send_message h ∷ xs) ys = ends-append c xs ys
ends-append c (trace_failed h a ∷ xs) ys = ends-append c xs ys

-- Whether the section of a cookie is open, for a handle.
abbrev pub open_cookie : ℕ → Option ℕ → Bool → ℕ
open_cookie c none ended = 0
open_cookie c (some k) ended = if k == c && not ended then 1 else 0

abbrev pub open_of : ℕ → HandleDescription → ℕ
open_of c d = open_cookie c d.trace_cookie d.trace_ended

abbrev pub opened : ℕ → List HandleDescription → ℕ
opened c [] = 0
opened c (d ∷ states) = open_of c d + opened c states

pub put_handle-opened :
    (c h : ℕ) (d d' : HandleDescription) (states : List HandleDescription)
    → find_handle h states ≡ some d
    → d'.handle ≡ h
    → opened c (put_handle d' states) + open_of c d ≡ opened c states + open_of c d'
unfolding find_handle put_handle
put_handle-opened c h d d' [] f e = absurd (ground arith)
put_handle-opened c h d d' (x ∷ states) f e = elim (Bool-cases (x.handle == h)) [
  | inl here ↦
      let same : x ≡ d = ground arith in
      let taken : (x.handle == d'.handle) ≡ true = ground arith in rw (taken, same) (omega arith)
  | inr there ↦
      let left : find_handle h states ≡ some d = ground arith in
      let other : (x.handle == d'.handle) ≡ false = ground arith in
      rw other (omega (arith, put_handle-opened c h d d' states left e))
]

pub erase_handle-opened :
    (c h : ℕ) (d : HandleDescription) (states : List HandleDescription)
    → find_handle h states ≡ some d
    → opened c (erase_handle h states) + open_of c d ≡ opened c states
unfolding find_handle erase_handle
erase_handle-opened c h d [] f = absurd (ground arith)
erase_handle-opened c h d (x ∷ states) f = elim (Bool-cases (x.handle == h)) [
  | inl here ↦ let same : x ≡ d = ground arith in rw (here, same) (omega arith)
  | inr there ↦
      let left : find_handle h states ≡ some d = ground arith in
      rw there (omega (arith, erase_handle-opened c h d states left))
]

pub insert_handle-opened :
    (c : ℕ) (d : HandleDescription) (states : List HandleDescription)
    → opened c (insert_handle d states) ≡ open_of c d + opened c states
unfolding insert_handle
insert_handle-opened c d [] = refl
insert_handle-opened c d (x ∷ states) = elim (Bool-cases (ltb d.handle x.handle)) [
  | inl here ↦ rw here refl
  | inr there ↦ rw there (omega (arith, insert_handle-opened c d states))
]
