-- ===== src/Envelope/Frames.antt =====
-- The frame structs and constants of pkg/envelope/envelope.go, field for field. The discriminant
-- field T of a struct is the constructor of `Frame` or `Outbound` that holds it.
use dsh_fleet.Base.{ℕ, Option, List, Bytes, codes}
use dsh_fleet.Base.Dict.{Dict}
use dsh_fleet.Base.Result.{ℤ}
use dsh_fleet.Envelope.Payload.{Payload}

abbrev pub protocol_version : ℕ
protocol_version = 1

abbrev pub auth_deadline_seconds : ℕ
auth_deadline_seconds = 5

abbrev pub close_bad_token : ℕ
close_bad_token = 4001

abbrev pub close_unknown_node : ℕ
close_unknown_node = 4002

abbrev pub close_bad_protocol : ℕ
close_bad_protocol = 4003

abbrev pub close_duplicate : ℕ
close_duplicate = 4004

abbrev pub close_auth_timeout : ℕ
close_auth_timeout = 4005

abbrev pub close_heartbeat_lost : ℕ
close_heartbeat_lost = 4006

-- The frame discriminants; `unknown` is any other string.
pub data Kind : Type 0 where
  t_hello t_welcome t_req t_cancel t_head t_data t_end t_err t_telemetry t_ping t_pong : Kind
  t_ws_open t_ws_up t_ws_msg t_ws_close : Kind
  unknown : Bytes → Kind

-- Namespaces a request may address.
abbrev pub ns_dsh : Bytes
ns_dsh = codes "dsh"

abbrev pub ns_fleet : Bytes
ns_fleet = codes "fleet"

-- Terminal failure classes for one request.
abbrev pub err_cancelled : Bytes
err_cancelled = codes "cancelled"

abbrev pub err_unsupported : Bytes
err_unsupported = codes "unsupported"

abbrev pub err_unavailable : Bytes
err_unavailable = codes "unavailable"

abbrev pub err_denied : Bytes
err_denied = codes "denied"

abbrev pub err_internal : Bytes
err_internal = codes "internal"

pub record NodeDescriptor : Type 0 where
  pub label : Bytes
  pub platform : Bytes
  pub arch : Bytes
  pub dsh_version : Bytes
  pub plugin_version : Bytes
  pub cwd : Bytes

pub record Hello : Type 0 where
  pub protocol : ℤ
  pub node_id : Bytes
  pub username : Bytes
  pub token : Bytes
  pub node : NodeDescriptor
  pub caps : List Bytes

pub record Welcome : Type 0 where
  pub protocol : ℕ
  pub heartbeat_ms : ℕ
  pub max_chunk_bytes : ℕ
  pub telemetry_interval_ms : ℕ

pub record Req : Type 0 where
  pub id : Bytes
  pub ns : Bytes
  pub method : Bytes
  pub path : Bytes
  pub headers : Dict Bytes
  pub body : Option Payload

pub record Head : Type 0 where
  pub id : Bytes
  pub status : ℤ
  pub headers : Dict Bytes

pub record Data : Type 0 where
  pub id : Bytes
  pub seq : ℤ
  pub body : Payload

pub record End : Type 0 where
  pub id : Bytes
  pub chunks : ℤ

pub record Err : Type 0 where
  pub id : Bytes
  pub code : Bytes
  pub message : Bytes

pub record Telemetry : Type 0 where
  pub ts : ℤ
  pub snapshot : Bytes

pub record WsOpen : Type 0 where
  pub id : Bytes
  pub path : Bytes
  pub headers : Dict Bytes

pub record WsUp : Type 0 where
  pub id : Bytes
  pub protocol : Bytes

pub record WsMsg : Type 0 where
  pub id : Bytes
  pub body : Payload

pub record WsClose : Type 0 where
  pub id : Bytes
  pub code : ℤ
  pub reason : Bytes

-- What a node sends. `other` is a frame whose type this side does not read.
pub data Frame : Type 0 where
  hello_frame : Hello → Frame
  head_frame : Head → Frame
  data_frame : Data → Frame
  end_frame : End → Frame
  err_frame : Err → Frame
  telemetry_frame : Telemetry → Frame
  ws_up_frame : WsUp → Frame
  ws_msg_frame : WsMsg → Frame
  ws_close_frame : WsClose → Frame
  pong_frame : ℤ → Frame
  other_frame : Bytes → Frame

-- What the control plane sends.
pub data Outbound : Type 0 where
  welcome : Welcome → Outbound
  req : Req → Outbound
  cancel : Bytes → Outbound
  ping : ℕ → Outbound
  ws_open : WsOpen → Outbound
  ws_msg : WsMsg → Outbound
  ws_close : WsClose → Outbound

unfoldable pub kind : Frame → Kind
kind (hello_frame _) = t_hello
kind (head_frame _) = t_head
kind (data_frame _) = t_data
kind (end_frame _) = t_end
kind (err_frame _) = t_err
kind (telemetry_frame _) = t_telemetry
kind (ws_up_frame _) = t_ws_up
kind (ws_msg_frame _) = t_ws_msg
kind (ws_close_frame _) = t_ws_close
kind (pong_frame _) = t_pong
kind (other_frame s) = unknown s
