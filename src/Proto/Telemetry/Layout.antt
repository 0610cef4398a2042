-- ===== src/Proto/Telemetry/Layout.antt =====
-- The layout tables of the three status frames, written down as encoders, against the parsers.
use openwrt_wattline.Common.{ℕ, ◌^◌, ◌<◌, ◌≡◌, Bool, false, [], ◌∷◌, ◌++◌, length, arith, take, ◌↔◌}
use openwrt_wattline.Common.Bytes.{Bytes, put_uint16}
use openwrt_wattline.Common.Float64.{Float64}
use openwrt_wattline.Common.Int.{ℤ, IsInt8, byte_of, int8-byte_of}
use openwrt_wattline.Common.Result.{ok, err}
use openwrt_wattline.Proto.Error.{battery_short, dc_short, typec_short}
use openwrt_wattline.Proto.Frames.{on_byte}
use openwrt_wattline.Proto.Sfloat.{decode_sfloat}
use openwrt_wattline.Proto.Telemetry.{
  Battery, DcPort, TypeCPort, sfloat_at, parse_battery, parse_dc, parse_type_c, index,
}

abbrev IsWord : ℕ → Type 0
IsWord v = v < 2 ^ 16

-- A frame with SFLOAT codes in place of values: `Battery ℕ` and so on.
abbrev pub battery_bytes : Battery ℕ → Bytes
battery_bytes c =
    on_byte c.enabled
    ∷ byte_of c.status
    ∷ on_byte c.full
    ∷ (put_uint16 c.max_wh
        ++ (put_uint16 c.wh
            ++ (c.level
                ∷ (put_uint16 c.volts
                    ++ (put_uint16 c.amps ++ (put_uint16 c.watts ++ put_uint16 c.remain_min))))))

pub record BatteryFits (c : Battery ℕ) : Type 0 where
  pub status : IsInt8 c.status
  pub max_wh : IsWord c.max_wh
  pub wh : IsWord c.wh
  pub volts : IsWord c.volts
  pub amps : IsWord c.amps
  pub watts : IsWord c.watts
  pub remain_min : IsWord c.remain_min

abbrev port_bytes : Bool → ℤ → ℕ → ℕ → ℕ → Bytes
port_bytes enabled status volts amps watts =
    on_byte enabled ∷ byte_of status ∷ (put_uint16 volts ++ (put_uint16 amps ++ put_uint16 watts))

-- The short frame ends before `bypass`; the long one has it and perhaps more.
abbrev pub dc_bytes : DcPort ℕ → Bytes
dc_bytes c = port_bytes c.enabled c.status c.volts c.amps c.watts ++ on_byte c.bypass ∷ []

pub record DcFits (c : DcPort ℕ) : Type 0 where
  pub status : IsInt8 c.status
  pub volts : IsWord c.volts
  pub amps : IsWord c.amps
  pub watts : IsWord c.watts

-- Byte 10 is not read.
abbrev pub type_c_bytes : ℕ → TypeCPort ℕ → Bytes
type_c_bytes unread c =
    port_bytes c.enabled c.status c.volts c.amps c.watts
    ++ (put_uint16 c.temp_c ++ unread ∷ c.mode ∷ on_byte c.dc_input ∷ [])

pub record TypeCFits (c : TypeCPort ℕ) : Type 0 where
  pub status : IsInt8 c.status
  pub volts : IsWord c.volts
  pub amps : IsWord c.amps
  pub watts : IsWord c.watts
  pub temp_c : IsWord c.temp_c

module _ {F : Type 0} (fl : Float64 F) where
  -- A battery frame, whatever follows its sixteen bytes, is read field by field.
  pub parse_battery-battery_bytes :
      (c : Battery ℕ) (trailer : Bytes)
      → BatteryFits c
      → parse_battery fl (battery_bytes c ++ trailer)
        ≡ ok (record {
          enabled = c.enabled;
          status = c.status;
          full = c.full;
          max_wh = decode_sfloat fl c.max_wh;
          wh = decode_sfloat fl c.wh;
          level = c.level;
          volts = decode_sfloat fl c.volts;
          amps = decode_sfloat fl c.amps;
          watts = decode_sfloat fl c.watts;
          remain_min = c.remain_min;
        })
  unfolding parse_battery sfloat_at
  parse_battery-battery_bytes c trailer h = ground (arith, int8-byte_of c.status h.status)

  -- A DC frame of nine bytes or more is read field by field; the frame of eight bytes gives the
  -- same with the bypass off.
  pub parse_dc-dc_bytes :
      (c : DcPort ℕ) (trailer : Bytes)
      → DcFits c
      → let port : Bool → DcPort F = λ bypass. record {
        enabled = c.enabled;
        status = c.status;
        volts = decode_sfloat fl c.volts;
        amps = decode_sfloat fl c.amps;
        watts = decode_sfloat fl c.watts;
        bypass = bypass;
      } in
        (parse_dc fl (dc_bytes c ++ trailer) ≡ ok (port c.bypass))
        × (parse_dc fl (take 8 (dc_bytes c)) ≡ ok (port false))
  unfolding parse_dc sfloat_at index
  parse_dc-dc_bytes c trailer h = (
    ground (arith, int8-byte_of c.status h.status),
    ground (arith, int8-byte_of c.status h.status),
  )

  -- A USB-C frame of thirteen bytes or more, made of a status of one byte and of SFLOAT codes of two,
  -- is read field by field. Cut off at twelve bytes it gives
  -- the same with the input flag off, at eleven or ten bytes also with the mode zero; no byte behind
  -- its end is read.
  pub parse_type_c-type_c_bytes :
      (c : TypeCPort ℕ) (unread : ℕ) (trailer : Bytes)
      → TypeCFits c
      → let port : ℕ → Bool → TypeCPort F = λ mode dc_input. record {
        enabled = c.enabled;
        status = c.status;
        volts = decode_sfloat fl c.volts;
        amps = decode_sfloat fl c.amps;
        watts = decode_sfloat fl c.watts;
        temp_c = decode_sfloat fl c.temp_c;
        mode = mode;
        dc_input = dc_input;
      } in
        (parse_type_c fl (type_c_bytes unread c ++ trailer) ≡ ok (port c.mode c.dc_input))
        × (parse_type_c fl (take 12 (type_c_bytes unread c)) ≡ ok (port c.mode false))
        × (parse_type_c fl (take 11 (type_c_bytes unread c)) ≡ ok (port 0 false))
        × (parse_type_c fl (take 10 (type_c_bytes unread c)) ≡ ok (port 0 false))
  unfolding parse_type_c sfloat_at index
  parse_type_c-type_c_bytes c unread trailer h = (
    ground (arith, int8-byte_of c.status h.status),
    ground (arith, int8-byte_of c.status h.status),
    ground (arith, int8-byte_of c.status h.status),
    ground (arith, int8-byte_of c.status h.status),
  )

  -- Each parser refuses exactly the frames that are too short for it.
  pub short_frames :
      (b : Bytes)
      → ((parse_battery fl b ≡ err (battery_short (length b))) ↔ (length b < 16))
        × ((parse_dc fl b ≡ err (dc_short (length b))) ↔ (length b < 8))
        × ((parse_type_c fl b ≡ err (typec_short (length b))) ↔ (length b < 10))
  unfolding parse_battery parse_dc parse_type_c index
  short_frames b = (
    (λ h. ground arith, λ h. ground arith),
    (λ h. ground arith, λ h. ground arith),
    (λ h. ground arith, λ h. ground arith),
  )
