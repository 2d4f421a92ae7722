-- ===== src/Inodes/Parse.antt =====
-- Inode::Parse of src/inode2filename/inode.cc and operator<< of inode.h. `split` is
-- android::base::Split with one delimiter, `parse_uint` android::base::ParseUint for a size_t.
use android_system_iorap.Prelude.{
  ℕ, zero, suc, ◌+◌, ◌/◌, ◌%◌, ◌≡◌, refl, ◌==◌, ltb, Bool, true, ◌&&◌, not, List, [], ◌∷◌, ◌++◌,
  Option, none, some, arith, Bool-cases, inl, inr, All, Text,
}
use android_system_iorap.Prelude.Texts.{digits, decimal}
use android_system_iorap.Inodes.{Inode, from_device_and_inode}

-- operator<<
abbrev pub inode_text : Inode → Text
inode_text i = decimal i.device_major ++ 58 ∷ (decimal i.device_minor ++ 58 ∷ decimal i.inode)

module _ (split : ℕ → Text → List Text) (parse_uint : Text → Option ℕ) where
  abbrev pub device_at_inode : Option ℕ → Option ℕ → Option Inode
  device_at_inode none o = none
  device_at_inode (some dev_whole) none = none
  device_at_inode (some dev_whole) (some inode) = some (from_device_and_inode dev_whole inode)

  abbrev pub major_minor_inode : Option ℕ → Option ℕ → Option ℕ → Option Inode
  major_minor_inode none o p = none
  major_minor_inode (some device_major) none p = none
  major_minor_inode (some device_major) (some device_minor) none = none
  major_minor_inode (some device_major) (some device_minor) (some inode) =
      some (record { device_major = device_major; device_minor = device_minor; inode = inode })

  abbrev pub parse_triple : List Text → Option Inode
  parse_triple (a ∷ b ∷ c ∷ []) = major_minor_inode (parse_uint a) (parse_uint b) (parse_uint c)
  parse_triple [] = none
  parse_triple (a ∷ []) = none
  parse_triple (a ∷ b ∷ []) = none
  parse_triple (a ∷ b ∷ c ∷ d ∷ lst) = none

  abbrev pub parse_pair : List Text → Text → Option Inode
  parse_pair (a ∷ b ∷ []) str = device_at_inode (parse_uint a) (parse_uint b)
  parse_pair [] str = parse_triple (split 58 str)
  parse_pair (a ∷ []) str = parse_triple (split 58 str)
  parse_pair (a ∷ b ∷ c ∷ lst_pair) str = parse_triple (split 58 str)

  -- Parse, without the messages
  unfoldable pub parse_inode : Text → Option Inode
  parse_inode str = parse_pair (split 64 str) str

-- Without a character.
abbrev pub lacks : ℕ → Text → Bool
lacks d [] = true
lacks d (c ∷ s) = not (c == d) && lacks d s

lacks-append : (d : ℕ) (s t : Text) → lacks d s ≡ true → lacks d t ≡ true → lacks d (s ++ t) ≡ true
lacks-append d [] t a b = b
lacks-append d (c ∷ s) t a b = ground (arith, lacks-append d s t)

digits-lacks : (d fuel n : ℕ) → ltb 57 d ≡ true → lacks d (digits fuel n) ≡ true
digits-lacks d zero n h = refl
digits-lacks d (suc fuel) n h = elim (Bool-cases (ltb n 10)) [
  | inl small ↦ rw small (ground arith)
  | inr large ↦ rw large (
      lacks-append d (digits fuel (n / 10)) ((48 + n % 10) ∷ []) (digits-lacks d fuel (n / 10) h)
        (ground arith))
]

decimal-lacks : (d n : ℕ) → ltb 57 d ≡ true → lacks d (decimal n) ≡ true
unfolding decimal
decimal-lacks d n h = digits-lacks d (n + 1) n h

-- Split cuts a text at each delimiter.
pub record IsSplit (split : ℕ → Text → List Text) : Type 0 where
  pub whole : (d : ℕ) (s : Text) → lacks d s ≡ true → split d s ≡ s ∷ []
  pub cut : (d : ℕ) (s t : Text) → lacks d s ≡ true → split d (s ++ d ∷ t) ≡ s ∷ split d t

inode_text-lacks : (i : Inode) → lacks 64 (inode_text i) ≡ true
inode_text-lacks i =
    lacks-append 64 (decimal i.device_major) _ (decimal-lacks 64 i.device_major refl) (
      lacks-append 64 (decimal i.device_minor) _ (decimal-lacks 64 i.device_minor refl)
        (decimal-lacks 64 i.inode refl))

-- If Split cuts at the delimiters and the numbers that stand in the texts are read as they are written,
-- Parse reads what operator<< prints
-- of an inode as this inode, and a device, an @ and an inode number as the inode of this device and
-- number.
pub parse_inode-inode_text :
    (split : ℕ → Text → List Text) (parse_uint : Text → Option ℕ) (i : Inode) (dev inode : ℕ)
    → IsSplit split
    → All
        (λ n. parse_uint (decimal n) ≡ some n)
        (i.device_major ∷ i.device_minor ∷ i.inode ∷ dev ∷ inode ∷ [])
    → (parse_inode split parse_uint (inode_text i) ≡ some i)
      × (parse_inode split parse_uint (decimal dev ++ 64 ∷ decimal inode)
          ≡ some (from_device_and_inode dev inode))
unfolding parse_inode
parse_inode-inode_text split parse_uint i dev inode is (a, (b, (c, (d, (e, t))))) = (
  rw
      (
        is.whole 64 (inode_text i) (inode_text-lacks i),
        is.cut 58 (decimal i.device_major) (decimal i.device_minor ++ 58 ∷ decimal i.inode)
            (decimal-lacks 58 i.device_major refl),
        is.cut 58 (decimal i.device_minor) (decimal i.inode) (decimal-lacks 58 i.device_minor refl),
        is.whole 58 (decimal i.inode) (decimal-lacks 58 i.inode refl),
        a,
        b,
        c,
      )
      refl,
  rw
      (
        is.cut 64 (decimal dev) (decimal inode) (decimal-lacks 64 dev refl),
        is.whole 64 (decimal inode) (decimal-lacks 64 inode refl),
        d,
        e,
      )
      refl,
)
