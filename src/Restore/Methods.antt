-- ===== src/Restore/Methods.antt =====
-- The way back for services and their methods.
use ang.Common.{Option, none, some, [], map}
use ang.Normalizer
use ang.Normalizer.{zero_entity}
use ang.Ir
use ang.Restore.Entities.{restore_entity}
use ang.Restore.Endpoints.{restore_pagination}
use ang.Restore.Flows.{restore_flow_steps}

unfoldable pub restore_source : Ir.Source → Normalizer.Source
restore_source s = record {
  name = s.name;
  kind = s.kind;
  entity = s.entity;
  collection = s.collection;
  by = s.query;
  filter = [];
  metadata = s.metadata;
}

unfoldable pub restore_impl : Option Ir.Impl → Option Normalizer.MethodImpl
restore_impl none = none
restore_impl (some i) =
    some record { lang = i.lang; code = i.code; imports = i.imports; requires_tx = i.requires_tx }

-- an input or an output, which keeps its zero value if there is none
unfoldable pub entity_or_zero : Option Ir.Entity → Normalizer.Entity
entity_or_zero none = zero_entity
entity_or_zero (some e) = restore_entity e

-- `IRMethodToNormalizer`, which does not carry the attributes over
unfoldable pub restore_method : Ir.Method → Normalizer.Method
restore_method m = record {
  name = m.name;
  description = m.description;
  input = entity_or_zero m.input;
  output = entity_or_zero m.output;
  sources = map restore_source m.sources;
  cache_ttl = m.cache_ttl;
  cache_tags = m.cache_tags;
  throws = m.throws;
  publishes = m.publishes;
  broadcasts = m.broadcasts;
  pagination = restore_pagination m.pagination;
  idempotency = m.idempotent;
  dedupe_key = m.dedupe_key;
  outbox = m.outbox;
  impl = restore_impl m.impl;
  flow = restore_flow_steps m.flow;
  attributes = [];
  metadata = m.metadata;
  source = m.source;
}

-- `IRServiceToNormalizer`
unfoldable pub restore_service : Ir.Service → Normalizer.Service
restore_service s = record {
  name = s.name;
  description = s.description;
  methods = map restore_method s.methods;
  publishes = s.publishes;
  subscribes = s.subscribes;
  uses = s.uses;
  metadata = s.metadata;
  source = s.source;
  requires_sql = s.requires_sql;
  requires_mongo = s.requires_mongo;
  requires_redis = s.requires_redis;
  requires_nats = s.requires_nats;
  requires_s3 = s.requires_s3;
}
