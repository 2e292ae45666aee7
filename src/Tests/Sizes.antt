-- ===== src/Tests/Sizes.antt =====
-- A fleet of three clusters with one size that fits in its quotas, and one PostgreSQL size.
use radius_todolist_app.Prelude.{ℕ, refl, inl, [], ◌∷◌, In, All, false, ◌↔◌}
use radius_todolist_app.Dict.{Dict}
use radius_todolist_app.Json.{Json, int, text, arr, obj, end, item, stop, field}
use radius_todolist_app.Numbers.{pos, finite}
use radius_todolist_app.PostgresSizes
use radius_todolist_app.PostgresSizes.{available_sizes}
use radius_todolist_app.PostgresSizes.Eligible.{IsInRange, available_sizes-IsInRange}
use radius_todolist_app.NodeSizes.{Budget, Size}
use radius_todolist_app.NodeSizes.Available.{eligible_of}
use radius_todolist_app.NodeSizes.Fits.{IsFitting, eligible_of-IsFitting}

abbrev budget : Budget
budget = record { clusters = 3; nodes = 2 }

abbrev size : Size
size = record {
  name = "Standard_D4s_v5";
  family = "standarddsv5family";
  cpus = 4;
  memory = finite (pos 16) 0;
}

abbrev sizes : Dict Size
sizes = ("standard_d4s_v5", size) ∷ []

abbrev quotas : Dict (ℕ × ℕ)
quotas = ("cores", (10, 60)) ∷ ("standarddsv5family", (0, 36)) ∷ []

abbrev credits : Dict ℕ
credits = ("cores", 8) ∷ []

eligible_of-IsFitting_example :
    In ("standard_d4s_v5", size) (eligible_of budget quotas credits sizes)
    ↔ (In ("standard_d4s_v5", size) sizes × IsFitting budget quotas credits size)
eligible_of-IsFitting_example =
    eligible_of-IsFitting budget quotas credits ("standard_d4s_v5", size) sizes

fits : In ("standard_d4s_v5", size) (eligible_of budget quotas credits sizes)
unfolding eligible_of
fits = inl refl

abbrev edition : Json
edition = obj (
    field "name" (text "GeneralPurpose") (
      field "supportedServerSkus"
        (arr (
          item
            (obj (
              field "name" (text "Standard_D2ds_v5") (
                field "vCores" (int 2) (
                  field "supportedMemoryPerVcoreMb" (int 4096)
                    (field "supportedZones" (arr (item (text "1") end)) stop)))))
            end))
        stop))

abbrev capabilities : Json
capabilities = obj (
    field "supportedServerVersions" (arr (item (obj (field "name" (text "16") stop)) end))
      (field "supportedServerEditions" (arr (item edition end)) stop))

abbrev found : Dict PostgresSizes.Size
found =
    (
      "Standard_D2ds_v5",
      record {
        name = "Standard_D2ds_v5";
        tier = "GeneralPurpose";
        cpus = 2;
        memory_mb = 8192;
        zones = "1" ∷ [];
      },
    )
    ∷ []

available_sizes-IsInRange_example : All IsInRange found
unfolding available_sizes
available_sizes-IsInRange_example =
    available_sizes-IsInRange (λ s. s) (λ a b. false) (capabilities ∷ []) found refl
