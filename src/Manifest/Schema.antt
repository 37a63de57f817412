-- ===== src/Manifest/Schema.antt =====
-- portal/apps.py, the fields of the models of `portal.json`, as pydantic has typed them.
use claude_pwa_portal.Base.{ℕ, String, Text, Bool, Option, List}

pub record ToolField : Type 0 where
  pub name : Text
  pub type : String
  pub required : Bool
  pub description : Text

pub record ToolParam : Type 0 where
  pub name : Text
  pub type : String
  pub required : Bool
  pub description : Text
  pub fields : List ToolField

pub record ToolRender : Type 0 where
  pub html : Text
  pub filename : Text
  pub branded : Bool

pub record ToolDeliver : Type 0 where
  pub kind : String
  pub to : Option Text
  pub subject : Option Text
  pub key : Option Text
  pub ttl_days : Option ℕ

pub record Tool : Type 0 where
  pub name : Text
  pub description : Text
  pub params : List ToolParam
  pub render : ToolRender
  pub deliver : ToolDeliver

pub record FormField : Type 0 where
  pub name : Text
  pub label : Text
  pub type : String
  pub required : Bool
  pub placeholder : Option Text

pub record Form : Type 0 where
  pub name : Text
  pub title : Text
  pub description : Option Text
  pub fields : List FormField
  pub notify_email : Option Text
  pub success_message : Option Text

pub record Permissions : Type 0 where
  pub network : List Text
  pub csp_strict : Bool

pub record Manifest : Type 0 where
  pub slug : Text
  pub name : Text
  pub version : Text
  pub description : Option Text
  pub icon : Option Text
  pub entry : Text
  pub services : List String
  pub permissions : Permissions
  pub tools : List Tool
  pub forms : List Form
