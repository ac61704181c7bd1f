-- ===== src/Convert/Methods.antt =====
-- The conversion of services and their methods.
use ang.Common.{Option, none, some, map}
use ang.Normalizer
use ang.Ir
use ang.Convert.Entities.{convert_entity}
use ang.Convert.Endpoints.{convert_pagination}
use ang.Convert.Flows.{convert_flow_steps, convert_attributes}

-- a source of data; its Filter is not carried over
unfoldable pub convert_source : Normalizer.Source → Ir.Source
convert_source s = record {
  name = s.name;
  kind = s.kind;
  entity = s.entity;
  collection = s.collection;
  query = s.by;
  metadata = s.metadata;
}

unfoldable pub convert_impl : Option Normalizer.MethodImpl → Option Ir.Impl
convert_impl none = none
convert_impl (some i) =
    some record { lang = i.lang; code = i.code; imports = i.imports; requires_tx = i.requires_tx }

-- `ConvertMethod`
unfoldable pub convert_method : Normalizer.Method → Ir.Method
convert_method m = record {
  name = m.name;
  description = m.description;
  input = some (convert_entity m.input);
  output = some (convert_entity m.output);
  sources = map convert_source m.sources;
  cache_ttl = m.cache_ttl;
  cache_tags = m.cache_tags;
  throws = m.throws;
  publishes = m.publishes;
  broadcasts = m.broadcasts;
  pagination = convert_pagination m.pagination;
  idempotent = m.idempotency;
  dedupe_key = m.dedupe_key;
  outbox = m.outbox;
  impl = convert_impl m.impl;
  flow = convert_flow_steps m.flow;
  attributes = convert_attributes m.attributes;
  metadata = m.metadata;
  source = m.source;
}

-- `ConvertService`
unfoldable pub convert_service : Normalizer.Service → Ir.Service
convert_service s = record {
  name = s.name;
  description = s.description;
  methods = map convert_method s.methods;
  publishes = s.publishes;
  subscribes = s.subscribes;
  uses = s.uses;
  metadata = s.metadata;
  source = s.source;
  requires_sql = s.requires_sql;
  requires_mongo = s.requires_mongo;
  requires_redis = s.requires_redis;
  requires_nats = s.requires_nats;
  requires_s3 = s.requires_s3;
}
