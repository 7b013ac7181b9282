-- ===== src/Classfile/Version/Tests.antt =====
-- The version rules at concrete versions.
use mocha.Prelude.{err, false, ok, refl, true, ◌↔◌, ◌≡◌}
use mocha.Classfile.Version.{IsReadable, Version, check, check_iff, preview_refused}

abbrev java_25_preview : Version
java_25_preview = record { major = 69; minor = 65535 }

check_iff_example : (check true java_25_preview ≡ ok tt) ↔ IsReadable true java_25_preview
check_iff_example = check_iff true java_25_preview

refused : check false java_25_preview ≡ err preview_refused
unfolding check
refused = refl
