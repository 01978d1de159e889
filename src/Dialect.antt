-- ===== src/Dialect.antt =====
-- include/kjdmud/dialect/LpcDialect.hpp and src/dialect/LpcDialect.cpp: the dialects and their names.
use kjdmud.Base.{if◌then◌else◌}
use kjdmud.Core.Text.{Text, codes, text_eq}
use kjdmud.Core.Errors.{Result, ok, err, invalid_argument}

pub data LpcDialect : Type 0 where
  fluff_os ld_mud dgd : LpcDialect

pub dialect_name : LpcDialect → Text
dialect_name fluff_os = codes "fluffos"
dialect_name ld_mud = codes "ldmud"
dialect_name dgd = codes "dgd"

unfoldable pub dialect_from_string : Text → Result LpcDialect
dialect_from_string s =
    if text_eq s (codes "fluffos")
    then ok fluff_os
    else if text_eq s (codes "ldmud")
    then ok ld_mud
    else if text_eq s (codes "dgd")
    then ok dgd
    else err invalid_argument
