-- ===== src/Cc1101/Registers.antt =====
-- The register addresses, strobes and settings of the CC1101 that the driver uses.
use sky_sweep.Prelude.{ℕ}

abbrev pub iocfg2 : ℕ
iocfg2 = 0x00

abbrev pub iocfg0 : ℕ
iocfg0 = 0x02

abbrev pub fifothr : ℕ
fifothr = 0x03

abbrev pub pktctrl0 : ℕ
pktctrl0 = 0x08

abbrev pub channr : ℕ
channr = 0x0A

abbrev pub fsctrl1 : ℕ
fsctrl1 = 0x0B

abbrev pub freq2 : ℕ
freq2 = 0x0D

abbrev pub freq1 : ℕ
freq1 = 0x0E

abbrev pub freq0 : ℕ
freq0 = 0x0F

abbrev pub mdmcfg4 : ℕ
mdmcfg4 = 0x10

abbrev pub mdmcfg3 : ℕ
mdmcfg3 = 0x11

abbrev pub mdmcfg2 : ℕ
mdmcfg2 = 0x12

abbrev pub mdmcfg1 : ℕ
mdmcfg1 = 0x13

abbrev pub mdmcfg0 : ℕ
mdmcfg0 = 0x14

abbrev pub deviatn : ℕ
deviatn = 0x15

abbrev pub mcsm0 : ℕ
mcsm0 = 0x18

abbrev pub foccfg : ℕ
foccfg = 0x19

abbrev pub agcctrl2 : ℕ
agcctrl2 = 0x1B

abbrev pub agcctrl1 : ℕ
agcctrl1 = 0x1C

abbrev pub agcctrl0 : ℕ
agcctrl0 = 0x1D

abbrev pub frend1 : ℕ
frend1 = 0x21

abbrev pub frend0 : ℕ
frend0 = 0x22

abbrev pub fscal3 : ℕ
fscal3 = 0x23

abbrev pub fscal2 : ℕ
fscal2 = 0x24

abbrev pub fscal1 : ℕ
fscal1 = 0x25

abbrev pub fscal0 : ℕ
fscal0 = 0x26

abbrev pub rxfifo : ℕ
rxfifo = 0x3F

abbrev pub version : ℕ
version = 0x31

abbrev pub lqi_register : ℕ
lqi_register = 0x33

abbrev pub rssi_register : ℕ
rssi_register = 0x34

abbrev pub pktstatus : ℕ
pktstatus = 0x38

abbrev pub rxbytes : ℕ
rxbytes = 0x3B

abbrev pub sres : ℕ
sres = 0x30

abbrev pub scal : ℕ
scal = 0x33

abbrev pub srx : ℕ
srx = 0x34

abbrev pub sidle : ℕ
sidle = 0x36

abbrev pub sfrx : ℕ
sfrx = 0x3A

abbrev pub sftx : ℕ
sftx = 0x3B

abbrev pub mod_gfsk : ℕ
mod_gfsk = 0x10
