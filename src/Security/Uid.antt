-- ===== src/Security/Uid.antt =====
-- include/kjdmud/security/UidModel.hpp and src/security/UidModel.cpp: the user id and the effective
-- user id that a new object gets.
use kjdmud.Base.{
  ◌≡◌, ◌⊎◌, inl, inr, refl, Bool, true, false, ◌&&◌, Option, none, some, if◌then◌else◌, arith,
  Bool-cases,
}
use kjdmud.Core.Text.{Text, text_eq, text_eq_iff}

pub record UidModel : Type 0 where
  pub root_uid : Option Text
  pub backbone_uid : Option Text
  pub auto_trust_backbone : Bool

pub record ResolvedObjectUids : Type 0 where
  pub uid : Text
  pub euid : Option Text

abbrev pub resolved : Text → Option Text → ResolvedObjectUids
resolved u e = record { uid = u; euid = e }

-- `UidModel::active`.
abbrev pub active : UidModel → Bool
active model = elim model.root_uid [ none ↦ false | some u ↦ true ]

-- `uid && *uid == name`.
unfoldable pub is_uid : Option Text → Text → Bool
is_uid none name = false
is_uid (some u) name = text_eq u name

unfoldable pub from_backbone : UidModel → Text → Option Text → ResolvedObjectUids
unfolding is_uid
from_backbone model creator none = resolved creator none
from_backbone model creator (some e) =
    if model.auto_trust_backbone && is_uid model.backbone_uid creator
    then resolved e (some e)
    else resolved creator none

unfoldable pub resolve_object_uids :
    UidModel → Text → Option Text → Option Text → ResolvedObjectUids
unfolding is_uid from_backbone
resolve_object_uids model creator loader_uid loader_euid =
    if is_uid loader_uid creator
    then resolved creator loader_euid
    else from_backbone model creator loader_euid

is_uid→eq : (w : Option Text) (name : Text) → is_uid w name ≡ true → w ≡ some name
unfolding is_uid
is_uid→eq none name h = cc
is_uid→eq (some u) name h = rw ((text_eq_iff u name).0 h) refl

-- The three ways in which a new object gets its ids: the creator's and none; the creator's and the
-- loader's; the loader's effective one, for both.
abbrev pub IsGranted : UidModel → Text → Option Text → Option Text → ResolvedObjectUids → Type 0
IsGranted model creator loader_uid loader_euid r =
    ((r.uid ≡ creator) × (r.euid ≡ none))
    ⊎ ((r.uid ≡ creator) × (r.euid ≡ loader_euid) × (loader_uid ≡ some creator))
    ⊎ ((loader_euid ≡ some r.uid)
        × (r.euid ≡ loader_euid)
        × (model.auto_trust_backbone ≡ true)
        × (model.backbone_uid ≡ some creator))

from_backbone-IsGranted :
    (model : UidModel) (creator : Text) (loader_uid loader_euid : Option Text)
    → IsGranted model creator loader_uid loader_euid (from_backbone model creator loader_euid)
unfolding from_backbone
from_backbone-IsGranted model creator w none = inl (refl, refl)
from_backbone-IsGranted model creator w (some e) =
    elim (Bool-cases (model.auto_trust_backbone && is_uid model.backbone_uid creator)) [
      | inl trusted ↦ rw trusted (
          inr (inr (refl, refl, ground arith, is_uid→eq model.backbone_uid creator (ground arith))))
      | inr other ↦ rw other (inl (refl, refl))
    ]

-- A new object never gets an effective user id that its loader does not have, and gets one only from
-- a loader with the creator's user id, or where the creator is the backbone and the backbone is
-- trusted; its user id is the creator's, in that last case the loader's effective one.
pub resolve_object_uids-IsGranted :
    (model : UidModel) (creator : Text) (loader_uid loader_euid : Option Text)
    → IsGranted model creator loader_uid loader_euid
        (resolve_object_uids model creator loader_uid loader_euid)
unfolding resolve_object_uids
resolve_object_uids-IsGranted model creator loader_uid loader_euid =
    elim (Bool-cases (is_uid loader_uid creator)) [
      | inl own ↦ rw own (inr (inl (refl, refl, is_uid→eq loader_uid creator own)))
      | inr other ↦ rw other (from_backbone-IsGranted model creator loader_uid loader_euid)
    ]
