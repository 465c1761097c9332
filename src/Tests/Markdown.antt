-- ===== src/Tests/Markdown.antt =====
-- The theorems on normalised documents at concrete documents.
use aegis_workers.Base.{◌≡◌, refl, codes, Text}
use aegis_workers.Security.Names.{parts}
use aegis_workers.Markdown.{normalize_md, to_lf}
use aegis_workers.Markdown.Laws.{normalize_md_idempotent}
use aegis_workers.Markdown.Kept.{written, normalize_md-written}

abbrev document : Text
document = codes "# Title\r\ntext\n- item\n\n\n\nend\n\n"

document_normalized : normalize_md document ≡ codes "# Title\n\ntext\n\n- item\n\nend\n"
unfolding normalize_md
document_normalized = refl

-- A comment of a shell script counts as a heading, also inside a fenced block.
comment_in_fence :
    normalize_md (codes "```\nls\n# all\nls -a\n```\n") ≡ codes "```\nls\n\n# all\n\nls -a\n```\n"
unfolding normalize_md
comment_in_fence = refl

abbrev short : Text
short = codes "# T\r\nx"

normalize_md_idempotent_example : normalize_md (normalize_md short) ≡ normalize_md short
unfolding to_lf
normalize_md_idempotent_example =
    normalize_md_idempotent short (refl, (refl, (refl, (refl, (refl, tt)))))

normalize_md-written_example :
    written (parts 10 (normalize_md document)) ≡ written (parts 10 (to_lf document))
normalize_md-written_example = normalize_md-written document
