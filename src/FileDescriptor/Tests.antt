-- ===== src/FileDescriptor/Tests.antt =====
-- The theorems on net/file_descriptor.cc, on a stream cut into segments.
use astraea_open_source.Prelude.{ℕ, ◌≡◌, refl, false, true, List, [], ◌∷◌, some, arith}
use astraea_open_source.FileDescriptor.{FileDescriptor, done, read_exactly}
use astraea_open_source.FileDescriptor.Reading.{IsLive, Reads, read_exactly-Reads}
use astraea_open_source.FileDescriptor.Ownership.{Descriptors, update, construct}
use astraea_open_source.FileDescriptor.Lifetimes.{start, opens, Reach, here, next, Reach-owner}

abbrev pub cut : FileDescriptor
cut = record {
  segments = (1 ∷ []) ∷ (2 ∷ 3 ∷ []) ∷ (4 ∷ 5 ∷ []) ∷ [];
  fails = false;
  eof = false;
  read_count = 0;
}

cut-IsLive : IsLive cut
cut-IsLive = record {
  segments_ne = (omega arith, (omega arith, (omega arith, tt)));
  before_eof = refl;
  no_failure = refl;
}

read_exactly-Reads_example :
    (bytes : List ℕ) × (fd' : FileDescriptor) × (read_exactly cut 4 ≡ done bytes fd')
    × Reads 4 (1 ∷ 2 ∷ 3 ∷ 4 ∷ 5 ∷ []) bytes fd'
read_exactly-Reads_example = read_exactly-Reads cut 4 cut-IsLive (omega arith)

-- Two objects, of the numbers 5 and 6.
abbrev one_object : Descriptors
one_object = (construct (record start { is_open = update start.is_open 5 true }) 0 5 true).0

abbrev two_objects : Descriptors
two_objects =
    (construct (record one_object { is_open = update one_object.is_open 6 true }) 1 6 true).0

abbrev two_objects_made : Reach start two_objects
unfolding construct
two_objects_made = next (next here (opens 0 5 true refl refl refl)) (opens 1 6 true refl refl refl)

Reach-owner_example : (two_objects.is_open 6 ≡ true) × ((j : ℕ) → two_objects.fd j ≡ some 6 → j ≡ 1)
unfolding construct
Reach-owner_example = Reach-owner two_objects 1 6 two_objects_made ((tt, tt), tt) refl
