-- ===== src/Api/Command/Tiers.antt =====
-- How much consent a command costs.
use ko_ls.Base.{some, ◌≡◌, In, arith}
use ko_ls.Base.Order.{Bytes}
use ko_ls.Platform.{Governance}
use ko_ls.Core.Permissions.{governance, verbs}
use ko_ls.Api.Command.{Command, Sensitivity, sensitivity, command_verb}

module _ (g : Governance) where
  -- A command whose verb has the governance tier costs the consent of an act that governs.
  pub sensitivity-governance :
      (c : Command g) (verb : Bytes)
      → command_verb g c ≡ some verb
      → In (verb, governance) verbs
      → sensitivity g c ≡ Sensitivity.governs
  unfolding command_verb sensitivity
  sensitivity-governance c verb h i = ground arith
