-- ===== src/Domain/Frame.antt =====
-- core/domain/src/{ids,time,frame}.rs.
use Prim.Native.Nat.{Ordering, compare}
use aeryon.Base.{ℕ, ℤ, Bool, Option, ◌≡◌, refl, ap, arith}
use aeryon.Base.BTreeMap
use aeryon.Base.BTreeMap.{BTreeMap, Ord}
use aeryon.Base.Text.{
  Str, cmp_bytes, cmp_bytes_refl, eq_of_cmp_bytes, cmp_bytes_flip, cmp_bytes_trans,
}

-- The identifiers are `u64` values behind newtypes.
abbrev pub SensorId : Type 0
SensorId = ℕ

abbrev pub FrameId : Type 0
FrameId = ℕ

abbrev pub MissionId : Type 0
MissionId = ℕ

pub record Timestamp : Type 0 where
  pub nanos : ℕ

pub data MetadataKey : Type 0 where
  mission sequence source : MetadataKey
  custom : Str → MetadataKey

-- A float is its bit pattern.
pub data MetadataValue : Type 0 where
  text : Str → MetadataValue
  float : ℕ → MetadataValue
  integer : ℤ → MetadataValue
  bool : Bool → MetadataValue
  timestamp : Timestamp → MetadataValue

-- The derived order: by the variant, and custom keys by their strings.
pub rank : MetadataKey → ℕ
rank mission = 0
rank sequence = 1
rank source = 2
rank (custom s) = 3

pub cmp_key : MetadataKey → MetadataKey → Ordering
unfolding rank
cmp_key (custom s) (custom t) = cmp_bytes s t
cmp_key j k = compare (rank j) (rank k)

pub cmp_key_refl : (j : MetadataKey) → cmp_key j j ≡ Ordering.eq
unfolding cmp_key
cmp_key_refl mission = refl
cmp_key_refl sequence = refl
cmp_key_refl source = refl
cmp_key_refl (custom s) = cmp_bytes_refl s

pub eq_of_cmp_key : (j k : MetadataKey) → cmp_key j k ≡ Ordering.eq → j ≡ k
unfolding cmp_key
eq_of_cmp_key (custom s) (custom t) h = ap custom (eq_of_cmp_bytes s t h)
eq_of_cmp_key (custom s) _ h = ground arith
eq_of_cmp_key j k h = ground arith

pub cmp_key_flip : (j k : MetadataKey) → cmp_key j k ≡ Ordering.gt → cmp_key k j ≡ Ordering.lt
unfolding cmp_key
cmp_key_flip (custom s) (custom t) h = cmp_bytes_flip s t h
cmp_key_flip (custom s) _ h = ground arith
cmp_key_flip j k h = ground arith

pub cmp_key_trans :
    (j k l : MetadataKey)
    → cmp_key j k ≡ Ordering.lt
    → cmp_key k l ≡ Ordering.lt
    → cmp_key j l ≡ Ordering.lt
unfolding cmp_key
cmp_key_trans (custom s) (custom t) (custom u) h g = cmp_bytes_trans s t u h g
cmp_key_trans j k l h g = ground arith

instance abbrev pub metadata_key_ord : Ord MetadataKey
metadata_key_ord = record {
  cmp = cmp_key;
  cmp-refl = cmp_key_refl;
  eq_of_cmp = eq_of_cmp_key;
  cmp_flip = cmp_key_flip;
  cmp_trans = cmp_key_trans;
}

pub record Metadata : Type 0 where
  pub fields : BTreeMap MetadataKey MetadataValue

unfoldable pub insert : MetadataKey → MetadataValue → Metadata → Metadata
insert k v m = record { fields = BTreeMap.insert k v m.fields }

unfoldable pub get : MetadataKey → Metadata → Option MetadataValue
get k m = BTreeMap.get k m.fields

pub record FrameMetadata : Type 0 where
  pub frame_id : FrameId
  pub sensor_id : SensorId
  pub timestamp : Timestamp
  pub sequence : ℕ
  pub mission_id : Option MissionId
  pub metadata : Metadata
