-- ===== src/VoteBuff/RepType.antt =====
-- The replication types: their names, and the number of replicas of each.
use Prim.Native.String.{String}
use text.Mathlib.Text.{◌==◌}
use text.Mathlib.TextEquality.{eq_iff}
use s3res.Prelude.{ℕ, ◌≡◌, ◌≢◌, refl, arith, if◌then◌else◌}

-- `replication_t`
pub data Replication : Type 0 where
  unreplicated smr dmr tmr rep_type_error : Replication

-- `REP_TYPE_T`
pub rep_type_t : Replication → String
rep_type_t unreplicated = "NONE"
rep_type_t smr = "SMR"
rep_type_t dmr = "DMR"
rep_type_t tmr = "TMR"
rep_type_t rep_type_error = "REP_TYPE_ERROR"

unfoldable pub reptype_to_enum : String → Replication
reptype_to_enum type =
    if type == "NONE"
    then unreplicated
    else if type == "SMR"
    then smr
    else if type == "DMR"
    then dmr
    else if type == "TMR"
    then tmr
    else rep_type_error

pub reptype_to_count : Replication → ℕ
reptype_to_count smr = 1
reptype_to_count dmr = 2
reptype_to_count tmr = 3
reptype_to_count unreplicated = 0
reptype_to_count rep_type_error = 0

-- Each type's name reads back as the type.
pub reptype_to_enum-rep_type_t : (t : Replication) → reptype_to_enum (rep_type_t t) ≡ t
unfolding reptype_to_enum rep_type_t
reptype_to_enum-rep_type_t unreplicated = refl
reptype_to_enum-rep_type_t smr = refl
reptype_to_enum-rep_type_t dmr = refl
reptype_to_enum-rep_type_t tmr = refl
reptype_to_enum-rep_type_t rep_type_error = refl

-- A text that is read as a replication type is that type's name: no other spelling is accepted.
rep_type_t-reptype_to_enum :
    (s : String) → reptype_to_enum s ≢ rep_type_error → rep_type_t (reptype_to_enum s) ≡ s
unfolding reptype_to_enum rep_type_t
rep_type_t-reptype_to_enum s h =
    ground (arith, eq_iff s "NONE", eq_iff s "SMR", eq_iff s "DMR", eq_iff s "TMR")
