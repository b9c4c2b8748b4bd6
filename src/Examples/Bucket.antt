-- ===== src/Examples/Bucket.antt =====
-- Two partitions, a bucket and a stored payload.
use mathlib.Core.List.{append-nil}
use lore_stack.Common.{
  ◌≡◌, refl, ◌↔◌, Bool, true, false, ◌&&◌, Option, none, some, List, [], ◌∷◌, Bytes, arith,
  if◌then◌else◌,
}
use lore_stack.Common.Eq.{◌==◌, nat_eq, list_eq, int_eq}
use lore_stack.Sql.Laws.{beq_self, beq_ne}
use lore_stack.Immutable.Types.{
  Address, Fragment, match_none, StoreMatchResult, MetadataRow, Bucket, Upstream, Backend, Stored,
  bytes_eq, association_eq, flatten,
}
use lore_stack.Immutable.Index.{metadata_row}
use lore_stack.Immutable.Fragments.{InRange}
use lore_stack.Examples.Rows.{Eq-IsSet, rows_table}

abbrev pub row_beq : MetadataRow → MetadataRow → Bool
row_beq a b =
    a.flags == b.flags && (a.size_payload == b.size_payload && a.size_content == b.size_content)

pub row_beq_iff : (a b : MetadataRow) → (row_beq a b ≡ true) ↔ (a ≡ b)
row_beq_iff a b = ground (
  arith,
  int_eq.beq_iff a.flags b.flags,
  int_eq.beq_iff a.size_payload b.size_payload,
  int_eq.beq_iff a.size_content b.size_content,
)

pub row_IsSet : IsSet MetadataRow
row_IsSet = Eq-IsSet (record { beq = row_beq; beq_iff = row_beq_iff })

pub unit_IsSet : IsSet (Unit {0})
unit_IsSet = Eq-IsSet (record { beq = λ a b. true; beq_iff = λ a b. (λ h. refl, λ h. refl) })

abbrev pub Objects : Type 0
Objects = Bytes → Option Bytes

abbrev pub one_chunk : Option Bytes → List Bytes
one_chunk none = []
one_chunk (some v) = v ∷ []

pub flatten-one_chunk : (x : Option Bytes) (v : Bytes) → x ≡ some v → flatten (one_chunk x) ≡ v
flatten-one_chunk none v h = cc
flatten-one_chunk (some w) v h = let e : w ≡ v = cc in rw (append-nil w) e

abbrev pub bucket : Bucket
bucket = record {
  O = Objects;
  object = λ o k. o k;
  put = λ k v o j. if bytes_eq.beq k j then some v else o j;
  delete = λ k o j. if bytes_eq.beq k j then none else o j;
  chunks = λ o k. one_chunk (o k);
  object-put_self = λ k v o. rw (beq_self bytes_eq k) refl;
  object-put_ne = λ k j v o n. rw (beq_ne bytes_eq k j n) refl;
  object-delete_self = λ k o. rw (beq_self bytes_eq k) refl;
  object-delete_ne = λ k j o n. rw (beq_ne bytes_eq k j n) refl;
  chunks-object = λ o k v h. flatten-one_chunk (o k) v h;
}

abbrev pub backend : Backend
backend = record {
  fragments = rows_table association_eq unit_IsSet;
  metadata = rows_table bytes_eq row_IsSet;
  bucket = bucket;
}

abbrev pub nothing : StoreMatchResult
nothing = record {
  match_made = match_none;
  partition = [];
  context = [];
  stored_local = false;
  stored_durable = false;
}

abbrev pub file : Fragment
file = record { flags = 4; size_payload = 3; size_content = 10 }

abbrev pub up : Upstream
up = record {
  payload_obliterating = 1;
  payload_obliterated = 2;
  payload_obliteration = 3;
  payload_fragmented = 8;
  validate_fragment_size = λ f. true;
  validate_fragment_payload = λ f n. n == f.size_payload;
  sanitise_fragment_behavior_flags = λ f. f;
  no_match = nothing;
  no_data = record {
    fragment = file;
    match_made = match_none;
    partition = [];
    payload = none;
    content = none;
  };
  metadata = λ f m p. record {
    fragment = f;
    match_made = m;
    partition = p;
    payload = none;
    content = none;
  };
  header_size = 16;
  zero_context = 0 ∷ [];
  is_zero = λ c. c == 0 ∷ [];
  to_hex_str = λ h. h;
  context_of = λ p. p;
  references = λ bs. [];
  match_made-no_match = refl;
  to_hex_str-injective = λ a b h. h;
  context_of-injective = λ p q h. h;
}

abbrev pub home : Bytes
home = 1 ∷ []

abbrev pub away : Bytes
away = 2 ∷ []

abbrev pub address : Address
address = record { hash = 7 ∷ []; context = 8 ∷ [] }

abbrev pub bytes : Bytes
bytes = 5 ∷ 6 ∷ 7 ∷ []

abbrev pub empty : Stored backend
empty = record {
  associations = [];
  rows = [];
  objects = λ k. none;
  num_fragments = 0;
  num_payloads = 0;
}

-- The file, in one partition.
abbrev pub full : Stored backend
full = record {
  associations = (record { hash = 7 ∷ []; repository = home; context = 8 ∷ [] }, tt) ∷ [];
  rows = (7 ∷ [], metadata_row file) ∷ [];
  objects = bucket.put (7 ∷ []) bytes (λ k. none);
  num_fragments = 0;
  num_payloads = 0;
}

pub file-InRange : InRange file
file-InRange = record {
  flags = omega arith;
  size_payload = omega arith;
  size_content = omega arith;
}
