-- ===== src/Plugins/Lifecycle/Codes.antt =====
-- Failure codes survive the way through a message.
use noto.Common.{◌≡◌, refl, ◌++◌, nat_eq, list_eq, Text, codes}
use noto.Plugins.Lifecycle.{
  plugin_failed, plugin_generation_aborted, plugin_generation_stale, plugin_renderer_disposed,
  plugin_renderer_unavailable, plugin_renderer_disposal_failed, plugin_renderer_disposal_incomplete,
  plugin_lease_mismatch, plugin_lease_plugin_mismatch, plugin_lease_invalid, plugin_lease_reused,
  plugin_lease_closed, plugin_lease_unknown, plugin_capability_denied, plugin_disposer_invalid,
  plugin_manifest_invalid, plugin_registration_duplicate, plugin_registration_undeclared,
  plugin_replacement_cleanup_failed, plugin_setting_invalid, plugin_setting_unknown,
  plugin_setting_unavailable, RendererTransportFailureCode, an_error, code_text,
  to_renderer_transport_failure_code,
}

-- A code is read back from an error whose message is the code, or the code, a colon and anything
-- that follows: none of the other codes is taken for it.
pub to_renderer_transport_failure_code-code_text :
    (code : RendererTransportFailureCode) (rest : Text)
    → (to_renderer_transport_failure_code (an_error (code_text code)) ≡ code)
      × (to_renderer_transport_failure_code (an_error (code_text code ++ codes ":" ++ rest)) ≡ code)
unfolding to_renderer_transport_failure_code
to_renderer_transport_failure_code-code_text plugin_failed rest = (refl, refl)
to_renderer_transport_failure_code-code_text plugin_generation_aborted rest = (refl, refl)
to_renderer_transport_failure_code-code_text plugin_generation_stale rest = (refl, refl)
to_renderer_transport_failure_code-code_text plugin_renderer_disposed rest = (refl, refl)
to_renderer_transport_failure_code-code_text plugin_renderer_unavailable rest = (refl, refl)
to_renderer_transport_failure_code-code_text plugin_renderer_disposal_failed rest = (refl, refl)
to_renderer_transport_failure_code-code_text plugin_renderer_disposal_incomplete rest = (refl, refl)
to_renderer_transport_failure_code-code_text plugin_lease_mismatch rest = (refl, refl)
to_renderer_transport_failure_code-code_text plugin_lease_plugin_mismatch rest = (refl, refl)
to_renderer_transport_failure_code-code_text plugin_lease_invalid rest = (refl, refl)
to_renderer_transport_failure_code-code_text plugin_lease_reused rest = (refl, refl)
to_renderer_transport_failure_code-code_text plugin_lease_closed rest = (refl, refl)
to_renderer_transport_failure_code-code_text plugin_lease_unknown rest = (refl, refl)
to_renderer_transport_failure_code-code_text plugin_capability_denied rest = (refl, refl)
to_renderer_transport_failure_code-code_text plugin_disposer_invalid rest = (refl, refl)
to_renderer_transport_failure_code-code_text plugin_manifest_invalid rest = (refl, refl)
to_renderer_transport_failure_code-code_text plugin_registration_duplicate rest = (refl, refl)
to_renderer_transport_failure_code-code_text plugin_registration_undeclared rest = (refl, refl)
to_renderer_transport_failure_code-code_text plugin_replacement_cleanup_failed rest = (refl, refl)
to_renderer_transport_failure_code-code_text plugin_setting_invalid rest = (refl, refl)
to_renderer_transport_failure_code-code_text plugin_setting_unknown rest = (refl, refl)
to_renderer_transport_failure_code-code_text plugin_setting_unavailable rest = (refl, refl)
