-- ===== src/Api.antt =====
-- api/v1alpha1/*_types.go: the objects that users declare. A duration is its nanoseconds. Values of
-- the Kubernetes API that the operator only passes on are their serialised form.
use synthetics_operator.Shared.{String, Bool, Option, List, Bytes, ℤ}
use synthetics_operator.Shared.Dict.{Dict}
use synthetics_operator.Results.{Time, DependencyRef, Assertion, TlsConfig}

-- metav1.Condition. Its status is True or False here.
pub record Condition : Type 0 where
  pub type : String
  pub status : Bool
  pub observed_generation : ℤ
  pub last_transition_time : Time
  pub reason : String
  pub message : String

-- What all objects share: the metadata that is read, with whether a deletion timestamp is set, and
-- the fields that every spec has.
pub record Object : Type 0 where
  pub name : String
  pub namespace : String
  pub generation : ℤ
  pub deleting : Bool
  pub suspend : Bool
  pub depends : List DependencyRef
  pub metric_labels : Dict String String

pub record Status : Type 0 where
  pub observed_generation : ℤ
  pub conditions : List Condition

pub record SecretKeySelector : Type 0 where
  pub name : String
  pub key : String

pub record HeaderFromSource : Type 0 where
  pub name : String
  pub secret_key_ref : SecretKeySelector

pub record HttpRequestSpec : Type 0 where
  pub url : String
  pub method : String
  pub headers : Dict String Bytes
  pub headers_from : List HeaderFromSource
  pub body : Bytes

pub record HttpProbe : Type 0 where
  pub object : Object
  pub interval : ℤ
  pub timeout : ℤ
  pub request : HttpRequestSpec
  pub tls : Option TlsConfig
  pub assertions : List Assertion
  pub status : Status

pub record DnsQuery : Type 0 where
  pub name : String
  pub type : String
  pub resolver : String

pub record DnsProbe : Type 0 where
  pub object : Object
  pub interval : ℤ
  pub timeout : ℤ
  pub query : DnsQuery
  pub assertions : List Assertion
  pub status : Status

pub record TcpTarget : Type 0 where
  pub host : Bytes
  pub port : ℤ

pub record TcpProbe : Type 0 where
  pub object : Object
  pub interval : ℤ
  pub timeout : ℤ
  pub target : TcpTarget
  pub assertions : List Assertion
  pub status : Status

pub record TokenSecretRef : Type 0 where
  pub name : String
  pub key : String

pub record HeartbeatStatus : Type 0 where
  pub observed_generation : ℤ
  pub conditions : List Condition
  pub url : Bytes
  pub token_secret_name : String
  pub last_ping_time : Option Time
  pub last_result : String

pub record Heartbeat : Type 0 where
  pub object : Object
  pub period : ℤ
  pub grace : ℤ
  pub token_secret_ref : Option TokenSecretRef
  pub status : HeartbeatStatus

pub record ConfigMapKeyRef : Type 0 where
  pub name : String
  pub key : String

pub record EnvVar : Type 0 where
  pub name : String
  pub value : Bytes

pub record RunnerSpec : Type 0 where
  pub env : List EnvVar
  pub env_from : List Bytes
  pub resources : Bytes
  pub affinity : Option Bytes

pub record K6Test : Type 0 where
  pub object : Object
  pub interval : ℤ
  pub k6_version : String
  -- spec.script.configMap
  pub script : ConfigMapKeyRef
  pub ttl_after_finished : ℤ
  pub runner : Option RunnerSpec
  pub status : Status

pub record PlaywrightTest : Type 0 where
  pub object : Object
  pub interval : ℤ
  pub script : ConfigMapKeyRef
  pub ttl_after_finished : ℤ
  pub runner : Option RunnerSpec
  pub status : Status
