-- ===== src/Tests/Vaults.antt =====
-- Two copies of a vault: the phone has changed one entry and added another since the laptop's copy.
use engr_serverless_pm.Base.{
  ◌≤◌, String, ◌≡◌, refl, true, false, any, contains, any_of_contains, Option, none, some, List, [],
  ◌∷◌, Bool-cases, inl, inr, arith, eq_iff,
}
use engr_serverless_pm.Versioning.{VersionVector, get}
use engr_serverless_pm.Versioning.Order.{AtMost}
use engr_serverless_pm.Vault.{
  Vault, PasswordEntry, Tag, TagGroup, Folder, DeviceProfile, entry_item,
}
use engr_serverless_pm.Vault.Sound.{IsSound}
use engr_serverless_pm.Vault.Validity.{IsValid}

abbrev pub laptop_1 : VersionVector
laptop_1 = ("laptop", 1) ∷ []

abbrev pub laptop_2 : VersionVector
laptop_2 = ("laptop", 2) ∷ []

abbrev pub both_2_1 : VersionVector
both_2_1 = ("laptop", 2) ∷ ("phone", 1) ∷ []

abbrev pub entry : String → String → VersionVector → PasswordEntry
entry i password v = record {
  id = i;
  input = record {
    password = password;
    login = "me";
    tags = "work" ∷ [];
    sanitized_url = "https://example.org";
    folder_id = "home";
  };
  version_vector = v;
}

abbrev pub work : Tag
work = record {
  input = record {
    id = "work";
    name = "Work";
    group_id = "areas";
    color = "blue";
    shade = 500;
    created_at = 1;
  };
  version_vector = laptop_1;
}

abbrev pub areas : TagGroup
areas = record {
  id = "areas";
  name = "Areas";
  icon = "map";
  base_color = "blue";
  description = none;
}

abbrev pub folder : String → String → Option String → Folder
folder i name parent = record {
  input = record {
    id = i;
    name = name;
    icon = "box";
    description = none;
    parent_id = parent;
    created_at = 1;
  };
  version_vector = laptop_1;
}

abbrev pub laptop : DeviceProfile
laptop = record { id = "laptop"; name = "Laptop"; created_at = 1; version_vector = laptop_1 }

abbrev pub vault_of : VersionVector → List PasswordEntry → Vault
vault_of v entries = record {
  version_vector = v;
  entries = entries;
  deleted_entries = (record { id = "gone"; version_vector = laptop_1; deleted_at = 5 }) ∷ [];
  device_profiles = laptop ∷ [];
  deleted_device_profiles = [];
  sync_target = none;
  sync_removal_pending = none;
  provider_credential_revocation_pending = none;
  tags = work ∷ [];
  deleted_tags = [];
  tag_groups = areas ∷ [];
  folders = folder "home" "Home" none ∷ folder "bank" "Bank" (some "home") ∷ [];
  deleted_folders = [];
}

abbrev pub on_laptop : Vault
on_laptop = vault_of laptop_2 (entry "mail" "old" laptop_1 ∷ entry "shop" "same" laptop_2 ∷ [])

abbrev pub on_phone : Vault
on_phone = vault_of both_2_1 (
    entry "mail" "new" (("laptop", 1) ∷ ("phone", 1) ∷ [])
    ∷ entry "shop" "same" laptop_2
    ∷ entry "chat" "fresh" (("phone", 1) ∷ [])
    ∷ [])

apart_of_none :
    (xs ds : List String)
    → any (contains ds) xs ≡ false
    → (i : String) → contains xs i ≡ true
    → contains ds i ≡ false
apart_of_none xs ds h i m = elim (Bool-cases (contains ds i)) [
  | inl there ↦ absurd (ground (arith, any_of_contains (contains ds) xs i m there))
  | inr absent ↦ absent
]

AtMost-laptop : (v : VersionVector) → 1 ≤ get v "laptop" → AtMost laptop_1 v
unfolding get
AtMost-laptop v h d = ground (arith, eq_iff "laptop" d, h)

module _ (v : VersionVector) (counts : 1 ≤ get v "laptop") where
  covered : AtMost laptop_1 v
  covered = AtMost-laptop v counts

  -- A vault is valid when its entries are sound.
  vault_of-IsValid :
      (entries : List PasswordEntry)
      → IsSound entry_item v entries (vault_of v entries).deleted_entries
      → IsValid (vault_of v entries)
  vault_of-IsValid entries sound = record {
    entries = sound;
    tags = record {
      separate = record { active_once = (refl, tt); deleted_once = tt; apart = λ i m. refl };
      active_covered = (covered, tt);
      deleted_covered = tt;
    };
    folders = record {
      separate = record {
        active_once = (refl, (refl, tt));
        deleted_once = tt;
        apart = λ i m. refl;
      };
      active_covered = (covered, (covered, tt));
      deleted_covered = tt;
    };
    device_profiles = record {
      separate = record { active_once = (refl, tt); deleted_once = tt; apart = λ i m. refl };
      active_covered = (covered, tt);
      deleted_covered = tt;
    };
  }

pub on_laptop-IsValid : IsValid on_laptop
unfolding get
on_laptop-IsValid = vault_of-IsValid laptop_2 (omega arith) _ (record {
  separate = record {
    active_once = (refl, (refl, tt));
    deleted_once = (refl, tt);
    apart = apart_of_none ("mail" ∷ "shop" ∷ []) ("gone" ∷ []) refl;
  };
  active_covered = (AtMost-laptop laptop_2 (omega arith), ((λ d. omega arith), tt));
  deleted_covered = (AtMost-laptop laptop_2 (omega arith), tt);
})

pub on_phone-IsValid : IsValid on_phone
unfolding get
on_phone-IsValid = vault_of-IsValid both_2_1 (omega arith) _ (record {
  separate = record {
    active_once = (refl, (refl, (refl, tt)));
    deleted_once = (refl, tt);
    apart = apart_of_none ("mail" ∷ "shop" ∷ "chat" ∷ []) ("gone" ∷ []) refl;
  };
  active_covered = (
    (λ d. ground (arith, eq_iff "laptop" d, eq_iff "phone" d)),
    (
      (λ d. ground (arith, eq_iff "laptop" d, eq_iff "phone" d)),
      ((λ d. ground (arith, eq_iff "laptop" d, eq_iff "phone" d)), tt),
    ),
  );
  deleted_covered = (AtMost-laptop both_2_1 (omega arith), tt);
})
