-- ===== src/Identity.antt =====
-- The identity service (pkg/rclone/identityserver.go).
use csi_driver_rclone.Prelude.{
  ◌≡◌, ◌↔◌, refl, Bool, true, false, Option, none, some, List, [], ◌∷◌, ok, err, if◌then◌else◌,
}
use csi_driver_rclone.Text.{Text, codes, is_empty}
use csi_driver_rclone.Driver.{Driver}
use csi_driver_rclone.Status.{Status, Reply, error, unavailable}

pub record PluginInfo : Type 0 where
  pub name : Text
  pub vendor_version : Text

unfoldable pub get_plugin_info : Driver → Reply PluginInfo
get_plugin_info d =
    if is_empty d.name
    then err (error unavailable (codes "Driver name not configured"))
    else if is_empty d.version
    then err (error unavailable (codes "Driver is missing version"))
    else ok (record { name = d.name; vendor_version = d.version })

-- `Ready`; the driver may be nil.
unfoldable pub probe : Option Driver → Bool
probe none = false
probe (some d) = if is_empty d.name then false else if is_empty d.version then false else true

pub data PluginCapability : Type 0 where
  service_controller_service : PluginCapability
  volume_expansion_online : PluginCapability

abbrev pub get_plugin_capabilities : List PluginCapability
get_plugin_capabilities = service_controller_service ∷ volume_expansion_online ∷ []

-- The driver is ready exactly when it can tell its name and version.
probe_iff :
    (d : Driver) → (probe (some d) ≡ true) ↔ ((info : PluginInfo) × (get_plugin_info d ≡ ok info))
unfolding probe get_plugin_info
probe_iff d = go (is_empty d.name) (is_empty d.version) _ _ _
  where
    go :
        (unnamed unversioned : Bool) (info : PluginInfo) (a b : Status)
        → ((if unnamed then false else if unversioned then false else true) ≡ true) ↔ (
            (i : PluginInfo) × ((if unnamed then err a else if unversioned then err b else ok info)
              ≡ ok i))
    go true u info a b = (λ h. absurd (cc), λ p. absurd (let (i, q) = p in cc))
    go false true info a b = (λ h. absurd (cc), λ p. absurd (let (i, q) = p in cc))
    go false false info a b = (λ h. (info, refl), λ p. refl)
