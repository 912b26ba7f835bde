-- ===== src/Keys/Named.antt =====
-- The named keys of core/keys.py: one resource of an agent or of a tenant each.
use h_mesh.Base.{Text, codes}
use h_mesh.Errors.{Result}
use h_mesh.Keys.{agent_key, tenant_key}

module _ (pod tenant agent : Text) where
  unfoldable pub delivery_lock_key : Result Text
  delivery_lock_key = agent_key pod tenant agent (codes "delivering")

  unfoldable pub receive_processing_key : Result Text
  receive_processing_key = agent_key pod tenant agent (codes "processing")

  unfoldable pub receive_opening_key : Result Text
  receive_opening_key = agent_key pod tenant agent (codes "opening")

  unfoldable pub receive_opened_key : Result Text
  receive_opened_key = agent_key pod tenant agent (codes "opened")

  unfoldable pub incarnation_key : Result Text
  incarnation_key = agent_key pod tenant agent (codes "incarnation")

module _ (pod tenant : Text) where
  unfoldable pub receive_unresolved_key : Result Text
  receive_unresolved_key = tenant_key pod tenant (codes "unresolved")

  unfoldable pub receive_undeliverable_key : Result Text
  receive_undeliverable_key = tenant_key pod tenant (codes "undeliverable")

  unfoldable pub retired_inbox_key : Result Text
  retired_inbox_key = tenant_key pod tenant (codes "retired-inbox")

  unfoldable pub offices_key : Result Text
  offices_key = tenant_key pod tenant (codes "offices")

  unfoldable pub office_tokens_key : Result Text
  office_tokens_key = tenant_key pod tenant (codes "offices.tokens")

  unfoldable pub office_cursor_key : Result Text
  office_cursor_key = tenant_key pod tenant (codes "offices.cursor")

  unfoldable pub coop_tokens_key : Result Text
  coop_tokens_key = tenant_key pod tenant (codes "coop-tokens")

  unfoldable pub interoffice_participants_key : Result Text
  interoffice_participants_key = tenant_key pod tenant (codes "interoffice-participants")

  unfoldable pub ingress_stalled_key : Result Text
  ingress_stalled_key = tenant_key pod tenant (codes "ingress.stalled")

  unfoldable pub run_windows_key : Result Text
  run_windows_key = tenant_key pod tenant (codes "run.windows")

  unfoldable pub run_remove_key : Result Text
  run_remove_key = tenant_key pod tenant (codes "run.remove")
