-- ===== src/Frame/Types.antt =====
-- The frame types of internal/frame: one record for each Go struct, and the interface `Frame`.
-- A []byte is a list of octets.
use zerodeps_hackk.Base.{ℕ, Bool, List}
use zerodeps_hackk.H2.{ErrCode}

pub record DataFrame : Type 0 where
  pub stream_id : ℕ
  pub end_stream : Bool
  pub content : List ℕ
  pub padded : Bool
  pub pad_len : ℕ

pub record HeadersFrame : Type 0 where
  pub stream_id : ℕ
  pub end_stream : Bool
  pub end_headers : Bool
  pub fragment : List ℕ
  pub priority : Bool
  pub exclusive : Bool
  pub stream_dependency : ℕ
  pub weight : ℕ
  pub padded : Bool
  pub pad_len : ℕ

pub record PriorityFrame : Type 0 where
  pub stream_id : ℕ
  pub exclusive : Bool
  pub stream_dependency : ℕ
  pub weight : ℕ

pub record RstStreamFrame : Type 0 where
  pub stream_id : ℕ
  pub err_code : ErrCode

pub record Setting : Type 0 where
  pub id : ℕ
  pub value : ℕ

pub record SettingsFrame : Type 0 where
  pub ack : Bool
  pub settings : List Setting

pub record PushPromiseFrame : Type 0 where
  pub stream_id : ℕ
  pub end_headers : Bool
  pub promised_id : ℕ
  pub fragment : List ℕ
  pub padded : Bool
  pub pad_len : ℕ

pub record PingFrame : Type 0 where
  pub ack : Bool
  pub payload : List ℕ

pub record GoAwayFrame : Type 0 where
  pub last_stream_id : ℕ
  pub err_code : ErrCode
  pub debug : List ℕ

pub record WindowUpdateFrame : Type 0 where
  pub stream_id : ℕ
  pub increment : ℕ

pub record ContinuationFrame : Type 0 where
  pub stream_id : ℕ
  pub end_headers : Bool
  pub fragment : List ℕ

pub record PriorityUpdateFrame : Type 0 where
  pub prioritized_id : ℕ
  pub value : List ℕ

pub data Frame : Type 0 where
  data_frame : DataFrame → Frame
  headers : HeadersFrame → Frame
  priority : PriorityFrame → Frame
  rst_stream : RstStreamFrame → Frame
  settings : SettingsFrame → Frame
  push_promise : PushPromiseFrame → Frame
  ping : PingFrame → Frame
  go_away : GoAwayFrame → Frame
  window_update : WindowUpdateFrame → Frame
  continuation : ContinuationFrame → Frame
  priority_update : PriorityUpdateFrame → Frame
