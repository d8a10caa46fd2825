-- ===== src/Waf/Geo.antt =====
-- What the GeoIP databases say of an address: `GeoIpDb::lookup` of cdn-middleware/src/waf/geo.rs. The
-- maxminddb crate's readers are functions from an address to a record, if there is one.
use nozdormu.Prelude.{Option, none, some, List, [], ◌∷◌, ℕ, ◌>>=◌}
use nozdormu.Prelude.Text.{Text, codes}
use nozdormu.Prelude.Map.{lookup}
use nozdormu.Waf.{GeoInfo}

abbrev pub Names : Type 0
Names = List (Text × Text)

-- A country or a subdivision
pub record Region : Type 0 where
  pub iso_code : Option Text
  pub names : Option Names

pub record Location (F : Type 0) : Type 0 where
  pub latitude : Option F
  pub longitude : Option F

-- The answers of the three databases; a continent is its code, and a city its names.
pub record CityRecord (F : Type 0) : Type 0 where
  pub country : Option Region
  pub continent : Option (Option Text)
  pub subdivisions : Option (List Region)
  pub city : Option (Option Names)
  pub location : Option (Location F)

pub record CountryRecord : Type 0 where
  pub country : Option Region
  pub continent : Option (Option Text)

pub record AsnRecord : Type 0 where
  pub number : Option ℕ
  pub organization : Option Text

pub record GeoIpDb (Addr F : Type 0) : Type 0 where
  pub city_db : Option (Addr → Option (CityRecord F))
  pub country_db : Option (Addr → Option CountryRecord)
  pub asn_db : Option (Addr → Option AsnRecord)

-- `names.as_ref().and_then(|n| n.get("en"))`
unfoldable pub english : Option Names → Option Text
unfolding lookup
english names = names >>= λ n. lookup (codes "en") n

abbrev pub first : List Region → Option Region
first [] = none
first (r ∷ rs) = some r

module _ {F : Type 0} where
  unfoldable pub unknown : GeoInfo F
  unknown = record {
    country_code = none;
    country_name = none;
    continent_code = none;
    subdivision_code = none;
    subdivision_name = none;
    city_name = none;
    asn = none;
    asn_org = none;
    latitude = none;
    longitude = none;
  }

  unfoldable pub of_city : CityRecord F → GeoInfo F
  unfolding english unknown
  of_city r =
      let sub = r.subdivisions >>= first in
      record unknown {
        country_code = r.country >>= λ c. c.iso_code;
        country_name = r.country >>= λ c. english c.names;
        continent_code = r.continent >>= λ code. code;
        subdivision_code = sub >>= λ s. s.iso_code;
        subdivision_name = sub >>= λ s. english s.names;
        city_name = r.city >>= english;
        latitude = r.location >>= λ l. l.latitude;
        longitude = r.location >>= λ l. l.longitude;
      }

  unfoldable pub of_country : CountryRecord → GeoInfo F
  unfolding english unknown
  of_country r = record unknown {
    country_code = r.country >>= λ c. c.iso_code;
    country_name = r.country >>= λ c. english c.names;
    continent_code = r.continent >>= λ code. code;
  }

module _ {Addr F : Type 0} where
  -- The country database is asked only where there is no city database.
  unfoldable pub lookup_place : GeoIpDb Addr F → Addr → GeoInfo F
  unfolding of_city of_country unknown
  lookup_place db ip = elim db.city_db [
    | some reader ↦ elim (reader ip) [ some r ↦ of_city r | none ↦ unknown ]
    | none ↦ elim db.country_db [
      | some reader ↦ elim (reader ip) [ some r ↦ of_country r | none ↦ unknown ]
      | none ↦ unknown
    ]
  ]

  unfoldable pub lookup_ip : GeoIpDb Addr F → Addr → GeoInfo F
  unfolding lookup_place
  lookup_ip db ip =
      let asn = db.asn_db >>= λ reader. reader ip in
      record (lookup_place db ip) {
        asn = asn >>= λ r. r.number;
        asn_org = asn >>= λ r. r.organization;
      }
