-- ===== src/Tests/Owners.antt =====
-- The user ids of objects that a wizard and the backbone make.
use kjdmud.Base.{◌≡◌, refl, true, some}
use kjdmud.Core.Text.{codes, text_eq}
use kjdmud.Security.Uid.{
  UidModel, IsGranted, resolved, is_uid, from_backbone, resolve_object_uids,
  resolve_object_uids-IsGranted,
}

abbrev model : UidModel
model = record {
  root_uid = some (codes "Root");
  backbone_uid = some (codes "Backbone");
  auto_trust_backbone = true;
}

backbone_is_trusted :
    resolve_object_uids model (codes "Backbone") (some (codes "ann")) (some (codes "ann"))
    ≡ resolved (codes "ann") (some (codes "ann"))
unfolding resolve_object_uids is_uid from_backbone text_eq
backbone_is_trusted = refl

resolve_object_uids-IsGranted_example :
    IsGranted model
      (codes "Backbone")
      (some (codes "ann"))
      (some (codes "ann"))
      (resolve_object_uids model (codes "Backbone") (some (codes "ann")) (some (codes "ann")))
resolve_object_uids-IsGranted_example =
    resolve_object_uids-IsGranted model (codes "Backbone") (some (codes "ann")) (some (codes "ann"))
