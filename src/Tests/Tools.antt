-- ===== src/Tests/Tools.antt =====
-- The filters of project1/bin on concrete texts.
use network_programming_demo.Prelude.{◌≡◌, refl}
use network_programming_demo.Text.Bytes.{codes}
use network_programming_demo.Tools.RemoveTag.{removetag, removetag0}

page : removetag (codes "<html>hi <b>you</b></html>") ≡ codes "hi you"
unfolding removetag
page = refl

-- The second tag is reported with the name of the first one in front.
joined_names : (removetag0 (codes "<b>x<h1>y")).errors ≡ codes "Error: illegal tag \"bh1\"\n"
unfolding removetag0
joined_names = refl
