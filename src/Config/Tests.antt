-- ===== src/Config/Tests.antt =====
-- Configurations that are loaded.
use vlf_proto.Base.{[], ◌∷◌, Option, none, some, ok, err, ◌≡◌, refl, ◌↔◌}
use vlf_proto.Base.Ints.{pos, negsuc, is_zero, is_below}
use vlf_proto.Wire.{Bytes}
use vlf_proto.Config.{
  Config, default_config, or_number, or_secrets, limits_defaults, apply_defaults, secret_count,
  validate, checked, load, invalid, bad_relay_idle,
}
use vlf_proto.Config.Accepted.{IsAcceptable, load_iff_IsAcceptable}

-- A decoder of one byte: the seconds of `relay_idle`.
abbrev decode_idle : Bytes → Config → Option Config
decode_idle [] c = none
decode_idle (n ∷ ns) c =
    some
      (record c { timeouts = record c.timeouts { relay_idle = pos n }; max_dgram_payload = pos 0 })

abbrev negative_idle : Bytes → Config → Option Config
negative_idle raw c = some (record c { timeouts = record c.timeouts { relay_idle = negsuc 4 } })

abbrev decoded : Config
decoded = record default_config {
  timeouts = record default_config.timeouts { relay_idle = pos 0 };
  max_dgram_payload = pos 0;
}

negative_refused : load negative_idle (some []) ≡ err (invalid bad_relay_idle)
unfolding load apply_defaults limits_defaults or_number or_secrets default_config validate checked
    secret_count is_zero is_below
negative_refused = refl

decodes : decode_idle (0 ∷ []) default_config ≡ some decoded
decodes = refl

load_iff_IsAcceptable_example :
    (load decode_idle (some (0 ∷ [])) ≡ ok (apply_defaults decoded)) ↔ IsAcceptable decoded
load_iff_IsAcceptable_example = load_iff_IsAcceptable decode_idle (0 ∷ []) decoded decodes
