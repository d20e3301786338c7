-- ===== src/Vault/Identity.antt =====
-- The identifiers that packages/core/src/domain accepts: `tagIdSchema` of entry/tag.schema.ts and
-- `folderSchema` of organization/folder.schema.ts.
use Prim.Native.Char.{code}
use engr_serverless_pm.Base.{
  ℕ, ◌+◌, String, Bool, false, not, ◌&&◌, ◌||◌, [], ◌∷◌, if◌then◌else◌, ◌==◌, leb, ltb, nat_eq, any,
}
use engr_serverless_pm.Vault.Folders.{uncategorized_folder_id}

-- `value.length`, in UTF-16 code units
unfoldable pub utf16_length : String → ℕ
utf16_length String.[] = 0
utf16_length (String.◌∷◌ c s) = (if ltb (code c) 0x10000 then 1 else 2) + utf16_length s

-- the white space and line terminators that `trim` removes
unfoldable pub is_white_space : ℕ → Bool
is_white_space c =
    (leb 9 c && leb c 13)
    || (leb 0x2000 c && leb c 0x200a)
    || any (nat_eq c)
        (0x20 ∷ 0xa0 ∷ 0x1680 ∷ 0x2028 ∷ 0x2029 ∷ 0x202f ∷ 0x205f ∷ 0x3000 ∷ 0xfeff ∷ [])

unfoldable pub starts_blank : String → Bool
unfolding is_white_space
starts_blank String.[] = false
starts_blank (String.◌∷◌ c s) = is_white_space (code c)

unfoldable pub ends_blank : String → Bool
unfolding is_white_space
ends_blank String.[] = false
ends_blank (String.◌∷◌ c String.[]) = is_white_space (code c)
ends_blank (String.◌∷◌ c (String.◌∷◌ d s)) = ends_blank (String.◌∷◌ d s)

-- `z.string().min(1).max(128).refine((value) => value === value.trim())`
unfoldable pub is_tag_id : String → Bool
unfolding utf16_length starts_blank ends_blank
is_tag_id s =
    leb 1 (utf16_length s) && leb (utf16_length s) 128 && not (starts_blank s) && not (ends_blank s)

-- `folderSchema.shape.id`
unfoldable pub is_folder_id : String → Bool
unfolding is_tag_id
is_folder_id s = is_tag_id s && not (s == uncategorized_folder_id)
