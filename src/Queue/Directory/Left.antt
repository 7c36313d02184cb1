-- ===== src/Queue/Directory/Left.antt =====
-- How many files of a directory are not in a list of names to skip.
use sms_gateway_v.Base.{
  ℕ, suc, ◌≤◌, ◌<◌, String, ◌≡◌, refl, true, false, some, List, [], ◌∷◌, arith, eq_iff, contains,
  length, if◌then◌else◌,
}
use sms_gateway_v.Queue.Directory.{File, Directory, file, unlink, put}

module _ {Text : Type 0} where
  unfoldable pub left : List String → Directory Text → ℕ
  left skipped [] = 0
  left skipped ((j, f) ∷ d) = if contains skipped j then left skipped d else suc (left skipped d)

  pub left-length : (d : Directory Text) → left [] d ≡ length d
  unfolding left
  left-length [] = refl
  left-length ((j, f) ∷ d) = ground (arith, left-length d)

  pub left-unlink :
      (skipped : List String) (k : String) (d : Directory Text)
      → left skipped (unlink k d) ≤ left skipped d
  unfolding left unlink
  left-unlink skipped k [] = omega arith
  left-unlink skipped k ((j, f) ∷ d) = ground (arith, left-unlink skipped k d)

  left-skip :
      (skipped : List String) (k : String) (d : Directory Text)
      → left (k ∷ skipped) d ≤ left skipped d
  unfolding left
  left-skip skipped k [] = omega arith
  left-skip skipped k ((j, f) ∷ d) = ground (arith, left-skip skipped k d)

  -- One fewer is left when one that was there is skipped.
  pub left-file :
      (skipped : List String) (k : String) (d : Directory Text) {f : File Text}
      → file k d ≡ some f
      → contains skipped k ≡ false
      → left (k ∷ skipped) (unlink k d) < left skipped d
  unfolding left file unlink
  left-file skipped k [] e c = ground arith
  left-file skipped k ((j, g) ∷ d) {f} e c = ground (
    arith,
    left-file skipped k d {f = f},
    left-unlink (k ∷ skipped) k d,
    left-skip skipped k d,
    eq_iff j k,
    eq_iff k j,
  )

  pub left-put :
      (skipped : List String) (k : String) (f : File Text) (d : Directory Text)
      → contains skipped k ≡ true
      → left skipped (put k f d) ≤ left skipped d
  unfolding left put
  left-put skipped k f d c = ground (arith, left-unlink skipped k d)
