-- ===== src/Queue/Accounted.antt =====
-- Where the files of the queue are: each stem in at most one of the four status directories, and
-- how often, which the operations that only move files keep.
use sms_gateway_v.Base.{
  ℕ, ◌+◌, ◌≤◌, String, ◌≡◌, inl, inr, Bool, Option-cases, true, false, some, arith, eq_iff, is_some,
}
use sms_gateway_v.Exec.{Exec, ◌>>=◌}
use sms_gateway_v.Exec.Keeps.{Keeps, keeps_rules}
use sms_gateway_v.Queue.Models.{QueueItem, Codec}
use sms_gateway_v.Queue.Directory.{
  File, file, IsUnique, unlink-IsUnique, put-IsUnique, file-unlink, file-put,
}
use sms_gateway_v.Queue.Dedup.{DedupStore}
use sms_gateway_v.Queue.State.{
  SubDir, Dirs, Queue, dir, replace, replace_found, atomic_move, save_item, written, dirs_or_raise,
  on_dedup,
}

abbrev pub one_if : Bool → ℕ
one_if true = 1
one_if false = 0

abbrev pub IsHome : SubDir → Type 0
IsHome SubDir.tmp = ⊥
IsHome _ = Unit

module _ {Text : Type 0} where
  -- In how many of the four directories a stem has a file.
  abbrev pub homes : String → Dirs Text → ℕ
  homes k ds =
      one_if (is_some (file k ds.pending))
      + one_if (is_some (file k ds.processing))
      + one_if (is_some (file k ds.sent))
      + one_if (is_some (file k ds.failed))

  pub record IsAccounted (n : String → ℕ) (q : Queue Text) : Type 0 where
    pub pending_unique : IsUnique q.dirs.pending
    pub processing_unique : IsUnique q.dirs.processing
    pub sent_unique : IsUnique q.dirs.sent
    pub failed_unique : IsUnique q.dirs.failed
    pub count : (k : String) → homes k q.dirs ≡ n k
    pub single : (k : String) → n k ≤ 1

  module _ (n : String → ℕ) where
    replaced :
        (stem : String) (f : File Text) (src dst : SubDir)
        → IsHome src
        → IsHome dst
        → (q : Queue Text) → file stem (dir src q.dirs) ≡ some f
        → IsAccounted n q
        → IsAccounted n (replace stem f src dst q)
    unfolding replace
    replaced stem f SubDir.tmp _ h g q e a = absurd h
    replaced stem f SubDir.pending SubDir.tmp h g q e a = absurd g
    replaced stem f SubDir.processing SubDir.tmp h g q e a = absurd g
    replaced stem f SubDir.sent SubDir.tmp h g q e a = absurd g
    replaced stem f SubDir.failed SubDir.tmp h g q e a = absurd g
    replaced stem f _ _ h g q e a = record {
      pending_unique = search (unlink-IsUnique, put-IsUnique, a.pending_unique);
      processing_unique = search (unlink-IsUnique, put-IsUnique, a.processing_unique);
      sent_unique = search (unlink-IsUnique, put-IsUnique, a.sent_unique);
      failed_unique = search (unlink-IsUnique, put-IsUnique, a.failed_unique);
      count =
          λ k. simp (file-put, file-unlink) (ground (arith, a.count k, a.single k, eq_iff stem k));
      single = a.single;
    }

    -- A move between status directories keeps the count of every stem.
    pub Keeps-move :
        (stem : String) (src dst : SubDir)
        → IsHome src
        → IsHome dst
        → Keeps (IsAccounted n) (atomic_move stem src dst)
    unfolding atomic_move ◌>>=◌
    Keeps-move stem src dst h g = record {
      at = λ q a. elim (Option-cases (file stem (dir src q.dirs))) [
        | inl e ↦ rw (e, atomic_move, replace_found) a
        | inr (f, e) ↦ rw (e, atomic_move, replace_found) (replaced stem f src dst h g q e a)
      ];
    }

    pub Keeps-on_dedup : {A : Type 0} (m : Exec DedupStore A) → Keeps (IsAccounted n) (on_dedup m)
    unfolding on_dedup
    Keeps-on_dedup m = record {
      at = λ q a. record {
        pending_unique = a.pending_unique;
        processing_unique = a.processing_unique;
        sent_unique = a.sent_unique;
        failed_unique = a.failed_unique;
        count = a.count;
        single = a.single;
      };
    }

module _ {Text : Type 0} ⦃codec : Codec Text⦄ (n : String → ℕ) where
  -- A rewrite of a claimed item's file in place keeps the count of every stem.
  pub save_item-IsAccounted :
      (now : ℕ) (item : QueueItem) (q : Queue Text)
      → is_some (file item.id q.dirs.processing) ≡ true
      → IsAccounted n q
      → IsAccounted n (save_item now item SubDir.processing q).1
  unfolding save_item ◌>>=◌
  save_item-IsAccounted now item q there a = record {
    pending_unique = a.pending_unique;
    processing_unique =
        put-IsUnique item.id (written now item) q.dirs.processing a.processing_unique;
    sent_unique = a.sent_unique;
    failed_unique = a.failed_unique;
    count = λ k. simp file-put (ground (arith, a.count k, eq_iff item.id k));
    single = a.single;
  }

pub Keeps-dirs_or_raise :
    {Text : Type 0} {P : Queue Text → Type 0} → Keeps P (dirs_or_raise {Text = Text})
unfolding dirs_or_raise ◌>>=◌
Keeps-dirs_or_raise = record { at = λ q p. ground arith }

pub ruleset account_rules = (keeps_rules, Keeps-move, Keeps-on_dedup, Keeps-dirs_or_raise, tt)
