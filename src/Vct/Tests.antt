-- ===== src/Vct/Tests.antt =====
-- The character classes at a few bytes.
use varnish.Prelude.{◌≡◌, refl, true, false, ◌||◌, arith}
use varnish.Vct.{
  is_sp, is_crlf, is_lws, is_ctl, is_alpha, is_sep, is_sepctl, is_xmlname, is_xmlnamestart,
}
use varnish.Vct.Classes.{rfc_sp, rfc_crlf, rfc_ctl, rfc_alpha, rfc_sep, classes_lem}

xml_names :
    (is_xmlnamestart b'-' ≡ false) × (is_xmlname b'-' ≡ true) × (is_xmlnamestart b':' ≡ true)
unfolding is_xmlname is_xmlnamestart
xml_names = (refl, refl, refl)

classes_lem_example :
    (is_sp 9 ≡ rfc_sp 9)
    × (is_crlf 9 ≡ rfc_crlf 9)
    × (is_lws 9 ≡ (rfc_sp 9 || rfc_crlf 9))
    × (is_ctl 9 ≡ rfc_ctl 9)
    × (is_alpha 9 ≡ rfc_alpha 9)
    × (is_sep 9 ≡ rfc_sep 9)
    × (is_sepctl 9 ≡ (rfc_sep 9 || rfc_ctl 9))
classes_lem_example = classes_lem 9 (omega arith)
