-- ===== src/Markup/AboutPage.antt =====
-- frontend/src/views/AboutView.tsx. The versions of the libraries that the build puts in are a parameter.
use tether_ddns.Prelude.{
  String, Bool, true, false, Option, none, some, List, [], ◌∷◌, ◌++◌, map, if◌then◌else◌,
}
use tether_ddns.Html.{Html, element, Nodes, nodes, words, class}
use tether_ddns.Markup.Layout.{section_header}

pub record AboutRow : Type 0 where
  pub name : String
  pub version : String

pub record AboutInfo : Type 0 where
  pub app_name : String
  pub app_version : String
  pub app_description : String
  pub backend : List AboutRow

-- The state, and whether the effect is still active.
pub record AboutView : Type 0 where
  pub about : Option AboutInfo
  pub failed : Bool
  pub active : Bool

abbrev pub mounted : AboutView
mounted = record { about = none; failed = false; active = true }

-- What happens after the page is mounted: the request succeeds with what it brings or fails, and the
-- page is unmounted.
pub data AboutEvent : Type 0 where
  arrives : AboutInfo → AboutEvent
  fails unmounts : AboutEvent

unfoldable pub about_step : AboutEvent → AboutView → AboutView
about_step (arrives i) s = if s.active then record s { about = some i } else s
about_step fails s = if s.active then record s { failed = true } else s
about_step unmounts s = record s { active = false }

abbrev name_of : Option AboutInfo → String
name_of none = "Tether"
name_of (some i) = i.app_name

abbrev version_of : Option AboutInfo → String
version_of none = "—"
version_of (some i) = i.app_version

abbrev text_of : Option AboutInfo → String
text_of none = ""
text_of (some i) = i.app_description

abbrev backend_of : Option AboutInfo → List AboutRow
backend_of none = []
backend_of (some i) = i.backend

module _ {E : Type 0} where
  abbrev row : AboutRow → Html E
  row r = element "div" (class "about-row" ∷ []) (
      nodes (
        element "span" (class "about-name" ∷ []) (nodes (words r.name ∷ []))
        ∷ element "span" (class "about-ver" ∷ []) (nodes (words r.version ∷ []))
        ∷ []))

  abbrev about_error : Bool → List (Html E)
  about_error failed =
      if failed
      then element "div" (class "about-error" ∷ [])
          (nodes (words "Couldn't load version info." ∷ []))
        ∷ []
      else []

  abbrev title : String → Html E
  title text = element "div" (class "sg-title" ∷ []) (nodes (words text ∷ []))

  abbrev about_header : Option AboutInfo → Html E
  about_header about = element "div" (class "panel about-header" ∷ []) (
      nodes (
        element "h2" [] (nodes (words (name_of about) ∷ []))
        ∷ element "span" (class "about-ver" ∷ [])
            (nodes (words "v" ∷ words (version_of about) ∷ []))
        ∷ element "p" (class "about-desc" ∷ []) (nodes (words (text_of about) ∷ []))
        ∷ []))

  unfoldable pub about_page : List AboutRow → AboutView → Nodes E
  unfolding section_header
  about_page frontend_rows s = nodes (
      section_header "About" none none
      ∷ about_header s.about
      ∷ element "div" (class "settings-grid" ∷ []) (
          nodes (
            element "div" (class "panel" ∷ [])
              (nodes (title "Backend" ∷ (about_error s.failed ++ map row (backend_of s.about))))
            ∷ element "div" (class "panel" ∷ []) (nodes (title "Frontend" ∷ map row frontend_rows))
            ∷ []))
      ∷ [])
