-- ===== src/Prelude/Order.antt =====
-- Strict total orders as `operator<` gives them, and the comparison of tuples field by field.
use Prim.Native.Nat.{ℕ}
use mathlib.Core.Path.{◌≡◌, refl}
use mathlib.Core.Logic.{◌↔◌}
use mathlib.Core.Bool.{Bool, true, false, ◌&&◌}
use mathlib.Core.List.{[], ◌∷◌}
use native.Mathlib.Omega.{arith}
use android_system_iorap.Prelude.Tests.{ltb, if◌then◌else◌}
use android_system_iorap.Prelude.Keys.{Key, same, Text}

pub record Order {κ} (K : Type κ) : Type κ where
  pub less : K → K → Bool
  pub less_irrefl : (j : K) → less j j ≡ false
  pub less_trans : (i j k : K) → less i j ≡ true → less j k ≡ true → less i k ≡ true
  pub less_total : (j k : K) → less j k ≡ false → less k j ≡ false → j ≡ k

abbrev pub less {κ} : {K : Type κ} ⦃o : Order K⦄ → K → K → Bool
less ⦃o⦄ = o.less

pub ltb_irrefl : (j : ℕ) → ltb j j ≡ false
ltb_irrefl j = ground arith

pub ltb_trans : (i j k : ℕ) → ltb i j ≡ true → ltb j k ≡ true → ltb i k ≡ true
ltb_trans i j k p q = ground arith

pub ltb_total : (j k : ℕ) → ltb j k ≡ false → ltb k j ≡ false → j ≡ k
ltb_total j k p q = ground arith

instance abbrev pub nat_order : Order ℕ
nat_order = record {
  less = ltb;
  less_irrefl = ltb_irrefl;
  less_trans = ltb_trans;
  less_total = ltb_total;
}

-- false comes before true.
abbrev pub less_bool : Bool → Bool → Bool
less_bool false true = true
less_bool false false = false
less_bool true k = false

pub less_bool_irrefl : (j : Bool) → less_bool j j ≡ false
less_bool_irrefl false = refl
less_bool_irrefl true = refl

pub less_bool_trans :
    (i j k : Bool) → less_bool i j ≡ true → less_bool j k ≡ true → less_bool i k ≡ true
less_bool_trans false false k p q = ground arith
less_bool_trans false true k p q = ground arith
less_bool_trans true j k p q = ground arith

pub less_bool_total : (j k : Bool) → less_bool j k ≡ false → less_bool k j ≡ false → j ≡ k
less_bool_total false false p q = refl
less_bool_total false true p q = ground arith
less_bool_total true false p q = ground arith
less_bool_total true true p q = refl

instance abbrev pub bool_order : Order Bool
bool_order = record {
  less = less_bool;
  less_irrefl = less_bool_irrefl;
  less_trans = less_bool_trans;
  less_total = less_bool_total;
}

abbrev pub same_bool : Bool → Bool → Bool
same_bool false false = true
same_bool false true = false
same_bool true k = k

pub same_bool_iff : (j k : Bool) → (same_bool j k ≡ true) ↔ (j ≡ k)
same_bool_iff false false = ground arith
same_bool_iff false true = ground arith
same_bool_iff true k = ground arith

instance abbrev pub bool_key : Key Bool
bool_key = record { same = same_bool; same_iff = same_bool_iff }

-- std::lexicographical_compare of the bytes
abbrev pub less_text : Text → Text → Bool
less_text s [] = false
less_text [] (c ∷ t) = true
less_text (b ∷ s) (c ∷ t) = if ltb b c then true else if ltb c b then false else less_text s t

pub less_text_irrefl : (s : Text) → less_text s s ≡ false
less_text_irrefl [] = refl
less_text_irrefl (b ∷ s) = ground (arith, less_text_irrefl s)

pub less_text_trans :
    (r s t : Text) → less_text r s ≡ true → less_text s t ≡ true → less_text r t ≡ true
less_text_trans r s [] p q = q
less_text_trans [] s (c ∷ t) p q = refl
less_text_trans (a ∷ r) [] (c ∷ t) p q = absurd (ground arith)
less_text_trans (a ∷ r) (b ∷ s) (c ∷ t) p q = ground (arith, less_text_trans r s t)

pub less_text_total : (s t : Text) → less_text s t ≡ false → less_text t s ≡ false → s ≡ t
less_text_total [] [] p q = refl
less_text_total [] (c ∷ t) p q = absurd (ground arith)
less_text_total (b ∷ s) [] p q = absurd (ground arith)
less_text_total (b ∷ s) (c ∷ t) p q = ground (arith, less_text_total s t)

instance abbrev pub text_order : Order Text
text_order = record {
  less = less_text;
  less_irrefl = less_text_irrefl;
  less_trans = less_text_trans;
  less_total = less_text_total;
}

-- Of two tuples the first fields that differ decide.
module _ {κ μ} {K : Type κ} {L : Type μ} ⦃e : Key K⦄ where
  abbrev pub same_pair : ⦃d : Key L⦄ → K × L → K × L → Bool
  same_pair (j, a) (k, b) = same j k && same a b

  pub same_pair_iff : ⦃d : Key L⦄ (p q : K × L) → (same_pair p q ≡ true) ↔ (p ≡ q)
  same_pair_iff ⦃d⦄ (j, a) (k, b) = ground (arith, e.same_iff j k, d.same_iff a b)

  module _ ⦃o : Order K⦄ ⦃u : Order L⦄ where
    abbrev pub less_pair : K × L → K × L → Bool
    less_pair (j, a) (k, b) = if same j k then less a b else less j k

    pub less_pair_irrefl : (p : K × L) → less_pair p p ≡ false
    less_pair_irrefl (j, a) = ground (arith, e.same_iff j j, u.less_irrefl a)

    pub less_pair_trans :
        (p q r : K × L) → less_pair p q ≡ true → less_pair q r ≡ true → less_pair p r ≡ true
    less_pair_trans (i, a) (j, b) (k, c) p q = ground (
      arith,
      e.same_iff i j,
      e.same_iff j k,
      e.same_iff i k,
      u.less_trans a b c,
      o.less_trans i j k,
      o.less_irrefl i,
      o.less_trans j i j,
      o.less_irrefl j,
    )

    pub less_pair_total : (p q : K × L) → less_pair p q ≡ false → less_pair q p ≡ false → p ≡ q
    less_pair_total (j, a) (k, b) p q =
        ground (arith, e.same_iff j k, e.same_iff k j, u.less_total a b, o.less_total j k)

instance abbrev pub pair_key {κ μ} : {K : Type κ} {L : Type μ} ⦃e : Key K⦄ ⦃d : Key L⦄ → Key (K × L)
pair_key = record { same = same_pair; same_iff = same_pair_iff }

instance abbrev pub pair_order {κ μ} :
    {K : Type κ} {L : Type μ} ⦃e : Key K⦄ ⦃o : Order K⦄ ⦃u : Order L⦄ → Order (K × L)
pair_order = record {
  less = less_pair;
  less_irrefl = less_pair_irrefl;
  less_trans = less_pair_trans;
  less_total = less_pair_total;
}
