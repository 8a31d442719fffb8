-- ===== src/Memory/Content.antt =====
-- The normal form of a claim's content.
use labloop.Prelude.{String, ◌≡◌, ap}
use labloop.Strings.Words.{join_split_idem}
use labloop.Memory.Claims.{Outside, normalize_content, content_hash}

-- The normal form of a content is its own normal form, so both have one hash and name one claim.
pub content_hash-normalize_content :
    (outside : Outside) (content : String)
    → (normalize_content (normalize_content content) ≡ normalize_content content)
      × (content_hash outside (normalize_content content) ≡ content_hash outside content)
unfolding content_hash normalize_content
content_hash-normalize_content outside content =
    (join_split_idem content, ap outside.sha256 (join_split_idem content))
