-- ===== src/Plugins/Lifecycle.antt =====
-- src/shared/plugins/lifecycle.ts: what the main process and the renderer say to each other about
-- plugins. The type `M` is that of a plugin's manifest; a record of settings is an association list.
pub mod Codes
use noto.Common.{
  ℕ, ◌+◌, Bool, true, false, ◌&&◌, ◌||◌, Option, none, some, List, [], ◌∷◌, ◌++◌, if◌then◌else◌,
  ◌==◌, nat_eq, list_eq, Text, codes,
}

pub data PluginLifecycleState : Type 0 where
  discovered disabled enabled_idle activating active deactivating failed crashed :
      PluginLifecycleState

pub data PluginActivationReason : Type 0 where
  on_startup : PluginActivationReason
  on_event : Text → PluginActivationReason
  on_hotkey : Text → PluginActivationReason
  on_command : Text → PluginActivationReason

pub data PluginPersistenceHealth : Type 0 where
  healthy degraded indeterminate : PluginPersistenceHealth

pub data PluginCapabilityGrantState : Type 0 where
  grant_active grant_revoking grant_revoked : PluginCapabilityGrantState

pub data PluginCapabilityRequestState : Type 0 where
  request_pending request_cancelling request_completed request_cancelled request_timed_out
        request_failed :
      PluginCapabilityRequestState

pub record PluginCapabilityGrantSnapshot : Type 0 where
  pub id : Text
  pub generation : ℕ
  pub root : Text
  pub state : PluginCapabilityGrantState

pub data PluginCapabilityAction : Type 0 where
  read_granted deny_probe : PluginCapabilityAction

pub record PluginCapabilityRequestSnapshot : Type 0 where
  pub request_id : Text
  pub generation : ℕ
  pub action : PluginCapabilityAction
  pub state : PluginCapabilityRequestState
  pub detail : Text

pub record PluginCapabilitySnapshot : Type 0 where
  pub grant : Option PluginCapabilityGrantSnapshot
  pub request : Option PluginCapabilityRequestSnapshot
  pub restart_required : Bool

pub record RendererLeaseMaterialization : Type 0 where
  pub lease_id : Text
  pub generation : ℕ
  pub registrations : ℕ

-- The field `registrations` is always 0.
pub record RendererLeaseRelease : Type 0 where
  pub lease_id : Text
  pub complete : Bool
  pub failures : List Text

pub data PluginTrust : Type 0 where
  sandboxed full : PluginTrust

pub record PluginInstallPresentation (M : Type 0) : Type 0 where
  pub source : Text
  pub trust : PluginTrust
  pub code_url : Text
  pub manifest : M

pub data PluginOrigin : Type 0 where
  bundled user : PluginOrigin

pub record PluginCommand : Type 0 where
  pub id : Text
  pub title : Text

pub record PluginHotkey : Type 0 where
  pub command : Text
  pub keys : Text

pub record PluginPresentationSnapshot (M : Type 0) : Type 0 where
  pub name : Text
  pub description : Text
  pub origin : PluginOrigin
  pub commands : List PluginCommand
  pub hotkeys : List PluginHotkey
  pub install : Option (PluginInstallPresentation M)

pub record PluginLifecycleSnapshot (M : Type 0) : Type 0 where
  pub id : Text
  pub manifest_version : Text
  pub desired_enabled : Bool
  pub lifecycle : PluginLifecycleState
  pub settings : List (Text × Bool)
  pub active_generation : Option ℕ
  pub lease_count : ℕ
  pub renderer_registrations : ℕ
  pub activation_reason : Option PluginActivationReason
  pub persistence_health : PluginPersistenceHealth
  pub last_failure : Option Text
  pub capability : PluginCapabilitySnapshot
  pub presentation : PluginPresentationSnapshot M

pub data RendererTransportFailureCode : Type 0 where
  plugin_failed plugin_generation_aborted plugin_generation_stale plugin_renderer_disposed
        plugin_renderer_unavailable plugin_renderer_disposal_failed
        plugin_renderer_disposal_incomplete plugin_lease_mismatch plugin_lease_plugin_mismatch
        plugin_lease_invalid plugin_lease_reused plugin_lease_closed plugin_lease_unknown
        plugin_capability_denied plugin_disposer_invalid plugin_manifest_invalid
        plugin_registration_duplicate plugin_registration_undeclared
        plugin_replacement_cleanup_failed plugin_setting_invalid plugin_setting_unknown
        plugin_setting_unavailable :
      RendererTransportFailureCode

-- The codes in the order of the list.
abbrev pub renderer_transport_failure_codes : List RendererTransportFailureCode
renderer_transport_failure_codes =
    plugin_failed ∷ plugin_generation_aborted ∷ plugin_generation_stale ∷ plugin_renderer_disposed
    ∷ plugin_renderer_unavailable ∷ plugin_renderer_disposal_failed
    ∷ plugin_renderer_disposal_incomplete ∷ plugin_lease_mismatch ∷ plugin_lease_plugin_mismatch
    ∷ plugin_lease_invalid ∷ plugin_lease_reused ∷ plugin_lease_closed ∷ plugin_lease_unknown
    ∷ plugin_capability_denied ∷ plugin_disposer_invalid ∷ plugin_manifest_invalid
    ∷ plugin_registration_duplicate ∷ plugin_registration_undeclared
    ∷ plugin_replacement_cleanup_failed ∷ plugin_setting_invalid ∷ plugin_setting_unknown
    ∷ plugin_setting_unavailable ∷ []

-- A code as it is written.
pub code_text : RendererTransportFailureCode → Text
code_text plugin_failed = codes "PLUGIN_FAILED"
code_text plugin_generation_aborted = codes "PLUGIN_GENERATION_ABORTED"
code_text plugin_generation_stale = codes "PLUGIN_GENERATION_STALE"
code_text plugin_renderer_disposed = codes "PLUGIN_RENDERER_DISPOSED"
code_text plugin_renderer_unavailable = codes "PLUGIN_RENDERER_UNAVAILABLE"
code_text plugin_renderer_disposal_failed = codes "PLUGIN_RENDERER_DISPOSAL_FAILED"
code_text plugin_renderer_disposal_incomplete = codes "PLUGIN_RENDERER_DISPOSAL_INCOMPLETE"
code_text plugin_lease_mismatch = codes "PLUGIN_LEASE_MISMATCH"
code_text plugin_lease_plugin_mismatch = codes "PLUGIN_LEASE_PLUGIN_MISMATCH"
code_text plugin_lease_invalid = codes "PLUGIN_LEASE_INVALID"
code_text plugin_lease_reused = codes "PLUGIN_LEASE_REUSED"
code_text plugin_lease_closed = codes "PLUGIN_LEASE_CLOSED"
code_text plugin_lease_unknown = codes "PLUGIN_LEASE_UNKNOWN"
code_text plugin_capability_denied = codes "PLUGIN_CAPABILITY_DENIED"
code_text plugin_disposer_invalid = codes "PLUGIN_DISPOSER_INVALID"
code_text plugin_manifest_invalid = codes "PLUGIN_MANIFEST_INVALID"
code_text plugin_registration_duplicate = codes "PLUGIN_REGISTRATION_DUPLICATE"
code_text plugin_registration_undeclared = codes "PLUGIN_REGISTRATION_UNDECLARED"
code_text plugin_replacement_cleanup_failed = codes "PLUGIN_REPLACEMENT_CLEANUP_FAILED"
code_text plugin_setting_invalid = codes "PLUGIN_SETTING_INVALID"
code_text plugin_setting_unknown = codes "PLUGIN_SETTING_UNKNOWN"
code_text plugin_setting_unavailable = codes "PLUGIN_SETTING_UNAVAILABLE"

-- `text.startsWith(prefix)`
pub starts_with : Text → Text → Bool
starts_with [] t = true
starts_with (p ∷ ps) [] = false
starts_with (p ∷ ps) (c ∷ t) = p == c && starts_with ps t

pub names_code : Text → RendererTransportFailureCode → Bool
unfolding code_text starts_with
names_code detail code =
    detail == code_text code
    || (starts_with (code_text code ++ codes ":") detail
        || starts_with (code_text code ++ codes " ") detail)

pub find_code : Text → List RendererTransportFailureCode → Option RendererTransportFailureCode
unfolding names_code
find_code detail [] = none
find_code detail (code ∷ rest) =
    let later = find_code detail rest in if names_code detail code then some code else later

-- What was thrown: an error with its message, a text, or something else.
pub data Cause : Type 0 where
  an_error : Text → Cause
  a_text : Text → Cause
  other : Cause

abbrev pub cause_detail : Cause → Text
cause_detail (an_error message) = message
cause_detail (a_text t) = t
cause_detail other = []

unfoldable pub to_renderer_transport_failure_code : Cause → RendererTransportFailureCode
unfolding find_code
to_renderer_transport_failure_code cause =
    elim (find_code (cause_detail cause) renderer_transport_failure_codes) [
      | none ↦ plugin_failed
      | some code ↦ code
    ]

unfoldable pub is_renderer_transport_failure_code : Text → Bool
unfolding code_text
is_renderer_transport_failure_code value = is_one value renderer_transport_failure_codes
  where
    is_one : Text → List RendererTransportFailureCode → Bool
    is_one v [] = false
    is_one v (code ∷ rest) = code_text code == v || is_one v rest

-- The requests, less the version and the request id that all of them carry.
pub data PluginLifecycleRequest : Type 0 where
  get_snapshots trigger_startup : PluginLifecycleRequest
  enable : Text → PluginLifecycleRequest
  disable : Text → PluginLifecycleRequest
  trigger_event : Text → PluginLifecycleRequest
  trigger_hotkey : Text → PluginLifecycleRequest
  execute_command : (plugin_id command_id : Text) → PluginLifecycleRequest
  set_setting : (plugin_id key : Text) (value : Bool) → PluginLifecycleRequest
  replace_generation : (plugin_id : Text) (reason : PluginActivationReason) → PluginLifecycleRequest
  renderer_disposed : (plugin_id lease_id : Text) (generation : ℕ) → PluginLifecycleRequest

-- The identity that a transport request and its answer carry, less the version.
pub record TransportIdentity : Type 0 where
  pub request_id : Text
  pub renderer_session_id : Text
  pub plugin_id : Text
  pub lease_id : Text
  pub generation : ℕ

pub data RendererTransportAction : Type 0 where
  open_lease : (settings : List (Text × Bool)) → RendererTransportAction
  close_lease : RendererTransportAction
  run_command : (command_id : Text) → RendererTransportAction
  update_setting : (key : Text) (value : Bool) → RendererTransportAction

pub record RendererTransportRequest : Type 0 where
  pub identity : TransportIdentity
  pub action : RendererTransportAction

pub data RendererTransportActionName : Type 0 where
  opening closing executing updating : RendererTransportActionName

pub data RendererTransportAnswer : Type 0 where
  refused : RendererTransportActionName → RendererTransportFailureCode → RendererTransportAnswer
  opened : (registrations : ℕ) → RendererTransportAnswer
  closed :
      (complete : Bool) (failures : List RendererTransportFailureCode) → RendererTransportAnswer
  executed : (handled : Bool) → RendererTransportAnswer
  updated : RendererTransportAnswer

pub record RendererTransportAck : Type 0 where
  pub identity : TransportIdentity
  pub answer : RendererTransportAnswer
