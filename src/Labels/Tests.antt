-- ===== src/Labels/Tests.antt =====
-- Label sets and versions at concrete contents.
use sptag.Base.{ℕ, ◌≡◌, refl, true, false, not, ◌||◌, ◌==◌, [], ◌∷◌, some, arith}
use sptag.Base.Int.{pos}
use sptag.Labels.{count}
use sptag.Labels.LabelSet.{LabelSet, passthrough, insert, contains}
use sptag.Labels.LabelSet.Members
use sptag.Labels.LabelSet.Members.{
  member, insert-adds, contains-member, initialize-IsValid, no_marks, cons, is_set, is_unset,
}
use sptag.Labels.VersionLabel.{
  VersionLabel, tombstone, delete, gone, get_version, set_version, inc_version, delete-deletes,
  inc_version-next, set_version-uncounted,
}
use sptag.Labels.VersionLabel

abbrev one_deleted : LabelSet
one_deleted = record {
  inserted = 1;
  data_ = record { cells = 255 ∷ 1 ∷ 255 ∷ []; max_rows = 10 };
  invalid_id_behavior = passthrough;
}

one_deleted-IsValid : Members.IsValid one_deleted
unfolding count
one_deleted-IsValid = record {
  marks = cons is_unset (cons is_set (cons is_unset no_marks));
  counted = refl;
  fits = omega arith;
}

abbrev versions : VersionLabel
versions = record { deleted = 1; data_ = record { cells = 127 ∷ 254 ∷ 255 ∷ []; max_rows = 10 } }

versions-IsValid : VersionLabel.IsValid versions
unfolding count
versions-IsValid = record { counted = refl; fits = omega arith }

contains-member_example : contains one_deleted (pos 1) ≡ some (member one_deleted 1)
contains-member_example = contains-member one_deleted 1 (omega arith)

insert-adds_example :
    (t : LabelSet) × ((insert one_deleted (pos 2) ≡ some (not (member one_deleted 2), t))
      × (Members.IsValid t × ((j : ℕ) → member t j ≡ (2 == j || member one_deleted j))))
insert-adds_example = insert-adds one_deleted 2 one_deleted-IsValid (omega arith)

alive : gone versions 0 ≡ false
unfolding gone
alive = refl

set_version-uncounted_example :
    (w : VersionLabel) × ((set_version versions (pos 0) tombstone ≡ some w)
      × ((gone w 0 ≡ true) × ((w.deleted ≡ 1) × (VersionLabel.IsValid w → ⊥))))
set_version-uncounted_example =
    set_version-uncounted versions 0 versions-IsValid (omega arith) alive
