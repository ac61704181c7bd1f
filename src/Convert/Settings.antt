-- ===== src/Convert/Settings.antt =====
-- The conversion of a project's settings.
use ang.Common.{map}
use ang.Values.{Json}
use ang.Normalizer
use ang.Ir
use ang.Ir.{zero_field, type_ref, TypePointer}
use ang.Convert.Fields.{infer_kind}

-- `ConvertAuth`
unfoldable pub convert_auth_def : Normalizer.AuthDef → Ir.Auth
convert_auth_def a = record {
  algorithm = a.alg;
  issuer = a.issuer;
  audience = a.audience;
  access_ttl = a.access_ttl;
  refresh_ttl = a.refresh_ttl;
  rotation = a.rotation;
  refresh_store = a.refresh_store;
  claims = record {
    user_id = a.user_id_claim;
    company_id = a.company_id_claim;
    roles = a.roles_claim;
    permissions = a.permissions_claim;
  };
  operations = record {
    service = a.service;
    login_op = a.login_op;
    login_access_field = a.login_access_field;
    login_refresh_field = a.login_refresh_field;
    refresh_op = a.refresh_op;
    refresh_token_field = a.refresh_token_field;
    refresh_access_field = a.refresh_access_field;
    refresh_refresh_field = a.refresh_refresh_field;
    logout_op = a.logout_op;
    logout_token_field = a.logout_token_field;
  };
}

unfoldable pub convert_rbac : Normalizer.RbacDef → Ir.Rbac
convert_rbac r = record { roles = r.roles; permissions = r.permissions }

abbrev pub convert_payload_field : Normalizer.SchedulePayloadField → Ir.Field
convert_payload_field p = record zero_field {
  name = p.name;
  type = type_ref (infer_kind p.type) "" TypePointer.nil TypePointer.nil;
  default = Json.text p.value;
}

-- `ConvertSchedule`
unfoldable pub convert_schedule : Normalizer.ScheduleDef → Ir.Schedule
convert_schedule s = record {
  name = s.name;
  service = s.service;
  action = s.action;
  at = s.at;
  every = s.every;
  publish = s.publish;
  payload = map convert_payload_field s.payload;
}

unfoldable pub convert_view : Normalizer.ViewDef → Ir.View
convert_view v = record { name = v.name; roles = v.roles }
