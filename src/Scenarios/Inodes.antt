-- ===== src/Scenarios/Inodes.antt =====
-- Inodes as texts.
use android_system_iorap.Prelude.{
  ℕ, ◌+◌, ◌-◌, ◌*◌, ◌≡◌, refl, arith, ◌==◌, true, false, if◌then◌else◌, List, [], ◌∷◌, ◌++◌, Option,
  none, some, Text,
}
use android_system_iorap.Prelude.Texts.{text, decimal}
use android_system_iorap.Inodes.{Inode, from_device_and_inode}
use android_system_iorap.Inodes.Parse.{
  inode_text, parse_inode, lacks, IsSplit, parse_inode-inode_text,
}

abbrev add_to_first : ℕ → List Text → List Text
add_to_first c [] = (c ∷ []) ∷ []
add_to_first c (t ∷ ts) = (c ∷ t) ∷ ts

-- Split at a single character.
abbrev split_at : ℕ → Text → List Text
split_at delimiter [] = [] ∷ []
split_at delimiter (c ∷ s) =
    let rest = split_at delimiter s in if c == delimiter then [] ∷ rest else add_to_first c rest

split_at-lacks : (d : ℕ) (s : Text) → lacks d s ≡ true → split_at d s ≡ s ∷ []
split_at-lacks d [] h = refl
split_at-lacks d (c ∷ s) h =
    let other : (c == d) ≡ false = ground arith in
    let later : lacks d s ≡ true = ground arith in rw (other, split_at-lacks d s later) refl

split_at-append :
    (d : ℕ) (s t : Text) → lacks d s ≡ true → split_at d (s ++ d ∷ t) ≡ s ∷ split_at d t
split_at-append d [] t h = let same : (d == d) ≡ true = ground arith in rw same refl
split_at-append d (c ∷ s) t h =
    let other : (c == d) ≡ false = ground arith in
    let later : lacks d s ≡ true = ground arith in rw (other, split_at-append d s t later) refl

split_at-IsSplit : IsSplit split_at
split_at-IsSplit = record { whole = split_at-lacks; cut = split_at-append }

abbrev read_digits : ℕ → Text → ℕ
read_digits n [] = n
read_digits n (c ∷ s) = read_digits (n * 10 + (c - 48)) s

-- For texts of digits.
abbrev read_uint : Text → Option ℕ
read_uint [] = none
read_uint (c ∷ s) = some (read_digits 0 (c ∷ s))

abbrev system_inode : Inode
system_inode = record { device_major = 253; device_minor = 4; inode = 5128 }

parse_inode-inode_text_example :
    (parse_inode split_at read_uint (inode_text system_inode) ≡ some system_inode)
    × (parse_inode split_at read_uint (decimal 64772 ++ 64 ∷ decimal 31)
        ≡ some (from_device_and_inode 64772 31))
unfolding decimal
parse_inode-inode_text_example =
    parse_inode-inode_text split_at read_uint system_inode 64772 31 split_at-IsSplit
      (refl, (refl, (refl, (refl, (refl, tt)))))

printed : inode_text system_inode ≡ text "253:4:5128"
unfolding decimal
printed = refl
