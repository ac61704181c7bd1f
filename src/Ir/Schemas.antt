-- ===== src/Ir/Schemas.antt =====
-- Templates, notifications and the whole schema.
use ang.Common.{String, Option, none, List, []}
use ang.Values.{Metadata}
use ang.Ir.Entities.{Entity, Event, Error}
use ang.Ir.Methods.{Service}
use ang.Ir.Endpoints.{Endpoint}
use ang.Ir.Repositories.{Repository}
use ang.Ir.Settings.{
  Project, zero_project, Config, zero_config, Auth, Rbac, Schedule, View, DependencyGraph,
}

pub record Template : Type 0 where
  pub id : String
  pub kind : String
  pub channel : String
  pub engine : String
  pub subject : String
  pub text : String
  pub html : String
  pub body : String
  pub required_vars : List String
  pub optional_vars : List String

abbrev pub zero_template : Template
zero_template = record {
  id = "";
  kind = "";
  channel = "";
  engine = "";
  subject = "";
  text = "";
  html = "";
  body = "";
  required_vars = [];
  optional_vars = [];
}

pub record NotificationChannelSpec : Type 0 where
  pub template : String

abbrev pub zero_notification_channel_spec : NotificationChannelSpec
zero_notification_channel_spec = record { template = "" }

pub record NotificationChannels : Type 0 where
  pub default_channels : List String
  pub channels : List (String × NotificationChannelSpec)

pub record NotificationPolicyRule : Type 0 where
  pub channels : List String
  pub template : String

pub record NotificationPolicies : Type 0 where
  pub rules : List NotificationPolicyRule

pub record NotificationsConfig : Type 0 where
  pub channels : Option NotificationChannels
  pub policies : Option NotificationPolicies

pub record Schema : Type 0 where
  pub ir_version : String
  pub project : Project
  pub entities : List Entity
  pub services : List Service
  pub events : List Event
  pub errors : List Error
  pub endpoints : List Endpoint
  pub repos : List Repository
  pub config : Config
  pub auth : Option Auth
  pub rbac : Option Rbac
  pub schedules : List Schedule
  pub views : List View
  pub notifications : Option NotificationsConfig
  pub templates : List Template
  pub graph : Option DependencyGraph
  pub metadata : Metadata

abbrev pub zero_schema : Schema
zero_schema = record {
  ir_version = "";
  project = zero_project;
  entities = [];
  services = [];
  events = [];
  errors = [];
  endpoints = [];
  repos = [];
  config = zero_config;
  auth = none;
  rbac = none;
  schedules = [];
  views = [];
  notifications = none;
  templates = [];
  graph = none;
  metadata = none;
}
