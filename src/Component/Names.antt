-- ===== src/Component/Names.antt =====
-- The forms of a component's name, in src/db/app_component_name.h.
use android_system_iorap.Prelude.{
  ℕ, ◌≡◌, refl, true, false, [], ◌∷◌, ◌++◌, arith, ◌==◌, Text, some, Bool-cases, inl, inr,
}
use android_system_iorap.Component.{
  AppComponentName, starts_with_dot, canonicalize, has_char, before_char, after_char,
  has_app_component_name, from_string, to_string, strip_prefix, replace, slash, percent,
  encoded_slash, encoded_percent, from_url_encoded_string, to_url_encoded_string,
}

has_char-append : (c : ℕ) (s t : Text) → has_char c (s ++ c ∷ t) ≡ true
unfolding has_char
has_char-append c [] t = ground arith
has_char-append c (d ∷ s) t = ground (arith, has_char-append c s t)

before_char-append : (c : ℕ) (s t : Text) → has_char c s ≡ false → before_char c (s ++ c ∷ t) ≡ s
unfolding has_char before_char
before_char-append c [] t h = ground arith
before_char-append c (d ∷ s) t h = ground (arith, before_char-append c s t)

after_char-append : (c : ℕ) (s t : Text) → has_char c s ≡ false → after_char c (s ++ c ∷ t) ≡ t
unfolding has_char after_char
after_char-append c [] t h = ground arith
after_char-append c (d ∷ s) t h = ground (arith, after_char-append c s t)

-- FromString inverts ToString, for a package name without a slash.
from_string-to_string :
    (c : AppComponentName) → has_char b'/' c.package_name ≡ false → from_string (to_string c) ≡ c
unfolding from_string to_string has_app_component_name
from_string-to_string c h = rw (
  has_char-append b'/' c.package_name c.activity_name,
  before_char-append b'/' c.package_name c.activity_name h,
  after_char-append b'/' c.package_name c.activity_name h,
)

-- A name that is canonical stays as it is, where the package's name is not empty and has no
-- leading dot.
canonicalize_idem :
    (c : AppComponentName) (b : ℕ) (s : Text)
    → c.package_name ≡ b ∷ s
    → (b == b'.') ≡ false
    → canonicalize (canonicalize c) ≡ canonicalize c
unfolding canonicalize
canonicalize_idem c b s e h = elim (Bool-cases (starts_with_dot c.activity_name)) [
  | inl d ↦ rw (d, e, h)
  | inr d ↦ rw (d, d)
]

-- A text without the first character of `from` stays as it is.
replace-absent : (b : ℕ) (p to s : Text) → has_char b s ≡ false → replace (b ∷ p) to s ≡ s
unfolding has_char replace
replace-absent b p to [] h = refl
replace-absent b p to (d ∷ s) h = ground (arith, replace-absent b p to s)

replace-here :
    (b : ℕ) (p to s t : Text) (d : ℕ) (u : Text)
    → has_char b s ≡ false
    → strip_prefix (b ∷ p) (d ∷ u) ≡ some t
    → replace (b ∷ p) to (s ++ d ∷ u) ≡ s ++ (to ++ t)
unfolding has_char replace
replace-here b p to [] t d u h e = ground arith
replace-here b p to (c ∷ s) t d u h e = ground (arith, replace-here b p to s t d u)

has_char-append_none :
    (b : ℕ) (s t : Text) → has_char b s ≡ false → has_char b t ≡ false → has_char b (s ++ t) ≡ false
unfolding has_char
has_char-append_none b [] t h k = k
has_char-append_none b (d ∷ s) t h k = ground (arith, has_char-append_none b s t)

to_string-has_percent :
    (c : AppComponentName)
    → has_char b'%' c.package_name ≡ false
    → has_char b'%' c.activity_name ≡ false
    → has_char b'%' (to_string c) ≡ false
unfolding to_string
to_string-has_percent c pp pa =
    has_char-append_none b'%' c.package_name (b'/' ∷ c.activity_name) pp (unfold has_char in pa)

-- FromUrlEncodedString inverts ToUrlEncodedString for names without a percent sign, whose package
-- has no slash; slashes in the activity's name do no harm.
pub from_url_encoded_string-to_url_encoded_string :
    (c : AppComponentName)
    → has_char b'/' c.package_name ≡ false
    → has_char b'%' c.package_name ≡ false
    → has_char b'%' c.activity_name ≡ false
    → from_url_encoded_string (to_url_encoded_string c) ≡ c
unfolding from_url_encoded_string to_url_encoded_string to_string
from_url_encoded_string-to_url_encoded_string c sep pp pa =
    rw
      (
        replace-absent b'%' [] encoded_percent (to_string c) no_percent,
        replace-here b'/' [] encoded_slash c.package_name c.activity_name b'/' c.activity_name sep
            refl,
        replace-here b'%' (b'2' ∷ b'F' ∷ []) slash c.package_name c.activity_name b'%'
            (b'2' ∷ b'F' ∷ c.activity_name) pp refl,
        replace-absent b'%' (b'2' ∷ b'5' ∷ []) percent (to_string c) no_percent,
      )
      (from_string-to_string c sep)
  where
    no_percent : has_char b'%' (to_string c) ≡ false
    no_percent = to_string-has_percent c pp pa
